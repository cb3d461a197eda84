-- ===== src/Model/Key.antt =====
-- strconv.FormatUint and strconv.ParseUint in base 10, as pkg/aitaskctl uses them on task ids, and
-- keyFunc of pkg/aitaskctl/userqueue.go.
use crater_backend.Prelude.{
  ℕ, zero, suc, ◌+◌, ◌-◌, ◌*◌, ◌/◌, ◌%◌, ◌≤◌, ◌<◌, ◌≡◌, ◌∙◌, ap, sym, Bool-cases, inl, inr, ◌&&◌,
  List, [], ◌∷◌, ◌++◌, arith, ltb, leb, if◌then◌else◌,
}
use mathlib.Core.List.{append_assoc, append-nil}
use crater_backend.Model.{AiTask}

abbrev pub Text : Type 0
Text = List ℕ

abbrev pub max_uint : ℕ
max_uint = 18446744073709551615

format_digits : ℕ → ℕ → Text
format_digits zero n = []
format_digits (suc f) n =
    let high = format_digits f (n / 10) in
    if ltb n 10 then (b'0' + n) ∷ [] else high ++ (b'0' + n % 10) ∷ []

-- strconv.FormatUint(n, 10). The fuel is above the number of digits.
unfoldable pub format_uint : ℕ → Text
unfolding format_digits
format_uint n = format_digits (suc n) n

parse_digits : ℕ → Text → ℕ
parse_digits acc [] = acc
parse_digits acc (c ∷ cs) =
    let next = acc * 10 + (c - b'0') in
    let rest = parse_digits next cs in
    if leb b'0' c && leb c b'9' then (if ltb max_uint next then max_uint else rest) else 0

-- The value of strconv.ParseUint(s, 10, 64), with its error dropped: 0 on a text that is no
-- number, and the largest uint64 on one that is too large.
unfoldable pub parse_uint : Text → ℕ
unfolding parse_digits
parse_uint s = parse_digits 0 s

unfoldable pub key_func : AiTask → Text
key_func t = format_uint t.id

parse_digit :
    (acc d : ℕ) (rest : Text)
    → d < 10
    → acc * 10 + d ≤ max_uint
    → parse_digits acc ((b'0' + d) ∷ rest) ≡ parse_digits (acc * 10 + d) rest
unfolding parse_digits
parse_digit acc d rest h b =
    let shown : b'0' + d - b'0' ≡ d = omega arith in rw shown (ground arith)

parse-format_digits :
    (f n : ℕ) (rest : Text)
    → n < f
    → n ≤ max_uint
    → parse_digits 0 (format_digits f n ++ rest) ≡ parse_digits n rest
unfolding format_digits
parse-format_digits zero n rest h b = elim h [ ]
parse-format_digits (suc f) n rest h b = elim (Bool-cases (ltb n 10)) [
  | inl e ↦
      let whole : 0 * 10 + n ≡ n = omega arith in
      rw e (parse_digit 0 n rest (ground arith) (omega arith) ∙ ap (λ k. parse_digits k rest) whole)
  | inr e ↦
      let whole : n / 10 * 10 + n % 10 ≡ n = omega arith in
      let high =
        parse-format_digits f (n / 10) ((b'0' + n % 10) ∷ rest) (ground arith) (omega arith) in
      rw (e, append_assoc)
        (high
          ∙ parse_digit (n / 10) (n % 10) rest (omega arith) (omega arith)
          ∙ ap (λ k. parse_digits k rest) whole)
]

-- Every uint64 is read back from its decimal text.
pub parse_uint-format_uint : (n : ℕ) → n ≤ max_uint → parse_uint (format_uint n) ≡ n
unfolding parse_uint format_uint
parse_uint-format_uint n b =
    rw (append-nil (format_digits (suc n) n)) at (parse-format_digits (suc n) n [] (omega arith) b)

-- Tasks with different ids have different keys.
pub key_func_injective :
    (s t : AiTask) → s.id ≤ max_uint → t.id ≤ max_uint → key_func s ≡ key_func t → s.id ≡ t.id
unfolding key_func
key_func_injective s t hs ht e =
    sym (parse_uint-format_uint s.id hs) ∙ ap parse_uint e ∙ parse_uint-format_uint t.id ht
