-- ===== src/Script/TooLong.antt =====
-- What is lost behind a line that is too long.
use monitorbeat.Base.{
  ℕ, ◌+◌, ◌≤◌, ◌≡◌, refl, ap, ap₂, true, ◌==◌, Option, [], ◌∷◌, ◌++◌, length, length-append, ltb,
  lt→ltb, arith, if◌then◌else◌, Bool-cases, inl, inr,
}
use monitorbeat.Base.Text.{Text}
use monitorbeat.Input.Decimal.{lacks}
use monitorbeat.Script.{scan_from, drop_cr, parse_lines, parse_custom}

scan_from-full : (acc s : Text) → 65536 ≤ length acc → scan_from acc s ≡ []
unfolding scan_from
scan_from-full acc [] h = rw (lt→ltb 65535 (length acc) (omega arith)) refl
scan_from-full acc (c ∷ s) h = rw (lt→ltb 65535 (length acc) (omega arith)) refl

scan_from-long :
    (acc long rest : Text)
    → lacks b'\n' long ≡ true
    → 65536 ≤ length acc + length long
    → scan_from acc (long ++ rest) ≡ []
unfolding scan_from
scan_from-long acc [] rest h n = scan_from-full acc rest (omega arith)
scan_from-long acc (c ∷ long) rest h n =
    let later = scan_from-long (acc ++ c ∷ []) long rest in
    let size = length-append acc (c ∷ []) in
    elim (Bool-cases (ltb 65535 (length acc))) [
      | inl b ↦ rw b refl
      | inr b ↦ ground (arith, b, later, size)
    ]

scan_from-behind :
    (acc before long rest : Text)
    → lacks b'\n' long ≡ true
    → 65536 ≤ length long
    → scan_from acc (before ++ b'\n' ∷ (long ++ rest)) ≡ scan_from acc (before ++ b'\n' ∷ [])
unfolding scan_from
scan_from-behind acc [] long rest h n =
    ap (λ l. if ltb 65535 (length acc) then [] else drop_cr acc ∷ l)
      (scan_from-long [] long rest h (omega arith))
scan_from-behind acc (c ∷ before) long rest h n =
    let next = scan_from-behind [] before long rest h n in
    let later = scan_from-behind (acc ++ c ∷ []) before long rest h n in
    ap₂ (λ k l. if ltb 65535 (length acc) then [] else if c == b'\n' then drop_cr acc ∷ k else l)
      next later

-- Behind a line of 65536 bytes or more nothing is read: the result is that of the text before it.
pub parse_custom_lem :
    (parse_float : Text → Option ℕ) (before long rest : Text)
    → lacks b'\n' long ≡ true
    → 65536 ≤ length long
    → parse_custom parse_float (before ++ b'\n' ∷ (long ++ rest))
      ≡ parse_custom parse_float (before ++ b'\n' ∷ [])
unfolding parse_custom
parse_custom_lem parse_float before long rest h n =
    ap (λ l. parse_lines parse_float l ([], [])) (scan_from-behind [] before long rest h n)
