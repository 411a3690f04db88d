-- ===== src/Message/Frame.antt =====
-- The wire format of lib/go and of README.md: [topic length][payload length][topic][payload][CRC].
use qdp.Base.{
  ℕ, zero, suc, ◌+◌, ◌-◌, ◌^◌, ◌<◌, ◌≡◌, refl, ap, ◌∙◌, List, [], ◌∷◌, ◌++◌, arith, length, take,
  length-append, take-append, drop-append, All-append, le→leb,
}
use qdp.Base.Bytes.{IsByte, IsBytes, IsU32, put_u32, slice, put_u32-IsBytes}
use qdp.Result.{ok}
use qdp.Crc.{calculate_crc32}
use qdp.Crc.Reference.{calculate_crc32-IsU32}
use qdp.Message.{Message, overwrite, copy_at, put_u32_at, slice_at}

-- The part of a frame that the checksum covers.
abbrev pub covered : Message → List ℕ
covered m = put_u32 (length m.topic) ++ (put_u32 (length m.payload) ++ (m.topic ++ m.payload))

abbrev pub frame : Message → List ℕ
frame m = covered m ++ put_u32 (calculate_crc32 (covered m))

abbrev pub frame_size : Message → ℕ
frame_size m = 12 + length m.topic + length m.payload

-- The size of the frame is a uint32.
abbrev pub Fits : Message → Type 0
Fits m = frame_size m < 2 ^ 32

abbrev pub IsBytesMessage : Message → Type 0
IsBytesMessage m = IsBytes m.topic × IsBytes m.payload

pub length-covered : (m : Message) → length (covered m) ≡ 8 + length m.topic + length m.payload
length-covered m = omega (arith, length-append m.topic m.payload)

pub length-frame : (m : Message) → length (frame m) ≡ frame_size m
length-frame m =
    length-append (covered m) (put_u32 (calculate_crc32 (covered m)))
    ∙ omega (arith, length-covered m)

pub covered-IsBytes : (m : Message) → IsBytesMessage m → IsBytes (covered m)
covered-IsBytes m (ht, hp) =
    All-append IsByte (put_u32 (length m.topic))
      (put_u32 (length m.payload) ++ (m.topic ++ m.payload)) (put_u32-IsBytes (length m.topic))
      (All-append IsByte (put_u32 (length m.payload)) (m.topic ++ m.payload)
        (put_u32-IsBytes (length m.payload)) (All-append IsByte m.topic m.payload ht hp))

pub frame-IsBytes : (m : Message) → IsBytesMessage m → IsBytes (frame m)
frame-IsBytes m h =
    All-append IsByte (covered m) (put_u32 (calculate_crc32 (covered m))) (covered-IsBytes m h)
      (put_u32-IsBytes (calculate_crc32 (covered m)))

overwrite-fit :
    (before old after src : List ℕ) (offset : ℕ)
    → length before ≡ offset
    → length old ≡ length src
    → overwrite (before ++ (old ++ after)) offset src ≡ before ++ (src ++ after)
unfolding overwrite
overwrite-fit [] [] [] [] zero h k = refl
overwrite-fit [] [] (x ∷ after) [] zero h k = refl
overwrite-fit [] [] after (s ∷ src) zero h k = absurd (omega arith)
overwrite-fit [] (x ∷ old) after [] zero h k = absurd (omega arith)
overwrite-fit [] (x ∷ old) after (s ∷ src) zero h k =
    ap (◌∷◌ s) (overwrite-fit [] old after src zero refl (omega arith))
overwrite-fit [] old after src (suc offset) h k = absurd (omega arith)
overwrite-fit (x ∷ before) old after src zero h k = absurd (omega arith)
overwrite-fit (x ∷ before) old after src (suc offset) h k =
    ap (◌∷◌ x) (overwrite-fit before old after src offset (omega arith) k)

length-three :
    (before mid after : List ℕ)
    → length (before ++ (mid ++ after)) ≡ length before + (length mid + length after)
length-three before mid after =
    length-append before (mid ++ after) ∙ omega (arith, length-append mid after)

pub copy_at-fit :
    (before old after src : List ℕ) (offset : ℕ)
    → length before ≡ offset
    → length old ≡ length src
    → copy_at (before ++ (old ++ after)) offset src ≡ ok (before ++ (src ++ after))
unfolding copy_at
copy_at-fit before old after src offset h k =
    rw
      (le→leb offset (length (before ++ (old ++ after)))
        (omega (arith, length-three before old after)))
      (ap ok (overwrite-fit before old after src offset h k))

pub put_u32_at-fit :
    (before old after : List ℕ) (offset v : ℕ)
    → length before ≡ offset
    → length old ≡ 4
    → put_u32_at (before ++ (old ++ after)) offset v ≡ ok (before ++ (put_u32 v ++ after))
unfolding put_u32_at
put_u32_at-fit before old after offset v h k =
    rw
      (le→leb (offset + 4) (length (before ++ (old ++ after)))
        (omega (arith, length-three before old after)))
      (ap ok (overwrite-fit before old after (put_u32 v) offset h (omega arith)))

pub slice-fit :
    (before mid after : List ℕ) (from to : ℕ)
    → length before ≡ from
    → from + length mid ≡ to
    → slice (before ++ (mid ++ after)) from to ≡ mid
slice-fit before mid after from to h k =
    ap (take (to - from)) (drop-append from before (mid ++ after) h)
    ∙ take-append (to - from) mid after (omega arith)

pub slice_at-fit :
    (before mid after : List ℕ) (from to : ℕ)
    → length before ≡ from
    → from + length mid ≡ to
    → slice_at (before ++ (mid ++ after)) from to ≡ ok mid
unfolding slice_at
slice_at-fit before mid after from to h k =
    rw
      (
        le→leb from to (omega arith),
        le→leb to (length (before ++ (mid ++ after)))
            (omega (arith, length-three before mid after)),
      )
      (ap ok (slice-fit before mid after from to h k))

-- The checksum of a message of bytes fits its field.
pub crc-covered-IsU32 : (m : Message) → IsBytesMessage m → IsU32 (calculate_crc32 (covered m))
crc-covered-IsU32 m h = calculate_crc32-IsU32 (covered m) (covered-IsBytes m h)
