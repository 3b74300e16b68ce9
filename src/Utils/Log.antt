-- ===== src/Utils/Log.antt =====
-- `_log_field` of echocorn/utils.py, and the line that `access_log` and `refusal_log` build.
use echocorn.Base.{
  true, ◌≡◌, ◌<◌, refl, false, All, Bool-cases, inl, inr, arith, ◌-◌, ℕ, ◌+◌, ◌/◌, ◌%◌, Bool, ◌||◌,
  [], ◌∷◌, leb, ltb, ◌==◌, if◌then◌else◌, any,
}
use echocorn.Base.Bytes.{Bytes}

unfoldable pub is_control : ℕ → Bool
is_control c = leb c 31 || (c == 127)

-- a digit of `%02x`
unfoldable hex_digit : ℕ → ℕ
hex_digit d = if ltb d 10 then b'0' + d else b'a' + (d - 10)

unfoldable escape : Bytes → Bytes
unfolding is_control hex_digit
escape [] = []
escape (c ∷ s) =
    if is_control c
    then b'\\' ∷ b'x' ∷ hex_digit (c / 16) ∷ hex_digit (c % 16) ∷ escape s
    else c ∷ escape s

unfoldable pub log_field : Bytes → Bytes
unfolding escape
log_field value = if any is_control value then escape value else value

-- A byte that cannot break a log line.
abbrev pub IsPlain : ℕ → Type 0
IsPlain c = is_control c ≡ false

hex_digit-IsPlain : (d : ℕ) → d < 16 → IsPlain (hex_digit d)
unfolding hex_digit is_control
hex_digit-IsPlain d h = ground arith

control_small : (c : ℕ) → is_control c ≡ true → c / 16 < 16
unfolding is_control
control_small c h = ground arith

escape-IsPlain : (s : Bytes) → All IsPlain (escape s)
unfolding escape
escape-IsPlain [] = tt
escape-IsPlain (c ∷ s) = elim (Bool-cases (is_control c)) [
  | inl control ↦ rw control (
    refl,
    (
      refl,
      (
        hex_digit-IsPlain (c / 16) (control_small c control),
        (hex_digit-IsPlain (c % 16) (omega arith), escape-IsPlain s),
      ),
    ),
  )
  | inr plain ↦ rw plain (plain, escape-IsPlain s)
]

none_any : (s : Bytes) → any is_control s ≡ false → All IsPlain s
none_any [] h = tt
none_any (c ∷ s) h = (ground arith, none_any s (ground arith))

-- No field of a log line holds a control character or DEL, whatever the peer sent in it.
pub log_field-IsPlain : (value : Bytes) → All IsPlain (log_field value)
unfolding log_field
log_field-IsPlain value = elim (Bool-cases (any is_control value)) [
  | inl some_control ↦ rw some_control (escape-IsPlain value)
  | inr clean ↦ rw clean (none_any value clean)
]
