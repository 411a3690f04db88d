-- ===== src/Ftdi/Transport/Errors.antt =====
-- lib/go/transport_ftdi.go: `isUsbDisconnectError`.
use Prim.Native.Char.{code}
use Prim.Native.String.{String}
use qdp.Base.{ℕ, ◌+◌, leb, ◌==◌, if◌then◌else◌, Bool, true, false, ◌&&◌, ◌||◌, List, [], ◌∷◌, map}
use qdp.Result.{Error, invalid_message, crc_mismatch, eof, failure}

-- The bytes of an ASCII text.
abbrev pub codes : String → List ℕ
codes String.[] = []
codes (String.◌∷◌ c s) = code c ∷ codes s

-- What is known of the errors of other packages: which are gousb.ErrorNoDevice or
-- gousb.ErrorNotFound, and the texts that Error() gives, in ASCII.
pub record ForeignErrors : Type 0 where
  pub no_device : ℕ → Bool
  pub text : ℕ → List ℕ

unfoldable pub has_no_device : ForeignErrors → Error → Bool
has_no_device foreign (failure n) = foreign.no_device n
has_no_device foreign other = false

unfoldable pub error_text : ForeignErrors → Error → List ℕ
error_text foreign invalid_message = codes "invalid message format"
error_text foreign crc_mismatch = codes "CRC checksum mismatch"
error_text foreign eof = codes "EOF"
error_text foreign (failure n) = foreign.text n

-- strings.ToLower, on ASCII
unfoldable pub lower : ℕ → ℕ
lower c = if leb b'A' c && leb c b'Z' then c + 32 else c

unfoldable pub to_lower : List ℕ → List ℕ
to_lower = map lower

-- strings.HasPrefix and strings.Contains
unfoldable pub has_prefix : List ℕ → List ℕ → Bool
has_prefix [] s = true
has_prefix (p ∷ ps) [] = false
has_prefix (p ∷ ps) (c ∷ s) = p == c && has_prefix ps s

unfoldable pub contains : List ℕ → List ℕ → Bool
contains [] needle = has_prefix needle []
contains (c ∷ s) needle = has_prefix needle (c ∷ s) || contains s needle

unfoldable pub contains_any : List ℕ → List (List ℕ) → Bool
contains_any s [] = false
contains_any s (needle ∷ needles) = contains s needle || contains_any s needles

unfoldable pub disconnect_patterns : List (List ℕ)
disconnect_patterns =
    codes "no such device"
    ∷ codes "device not responding"
    ∷ codes "device not found"
    ∷ codes "device disconnected"
    ∷ codes "endpoint not found"
    ∷ codes "pipe error"
    ∷ codes "operation timed out"
    ∷ codes "resource temporarily unavailable"
    ∷ []

unfoldable pub is_usb_disconnect_error : ForeignErrors → Error → Bool
is_usb_disconnect_error foreign e =
    has_no_device foreign e || contains_any (to_lower (error_text foreign e)) disconnect_patterns
