-- ===== src/Prelude/Methods.antt =====
-- The methods of Python's `str` that walk over the whole text.
use Prim.Native.Nat.{ℕ, zero, suc, ◌+◌, ◌<◌}
use mathlib.Core.Path.{◌≡◌, refl, sym, ap, ◌∙◌}
use mathlib.Core.Logic.{inl, inr}
use native.Mathlib.Omega.{arith}
use mathlib.Core.Bool.{Bool, true, false, ◌&&◌, ◌||◌}
use mathlib.Core.Option
use mathlib.Core.Option.{Option, none, some}
use mathlib.Core.List.{List, [], ◌∷◌, ◌++◌, reverse, reverse-append, append_assoc}
use nebula_chaos.Prelude.Tests.{leb, ◌==◌, if◌then◌else◌, Bool-cases}
use nebula_chaos.Prelude.Lists.{length, drop, is_nil}
use nebula_chaos.Prelude.Strings.{Text, codes, starts_with}

-- The white space that `strip` takes off, of ASCII text: the separators 28 to 31 count too.
abbrev pub is_blank : ℕ → Bool
is_blank c = (c == 32) || (leb 9 c && leb c 13) || (leb 28 c && leb c 31)

unfoldable pub lstrip : Text → Text
lstrip [] = []
lstrip (c ∷ t) = let rest = lstrip t in if is_blank c then rest else c ∷ t

unfoldable pub rstrip : Text → Text
unfolding lstrip
rstrip t = reverse (lstrip (reverse t))

unfoldable pub strip : Text → Text
unfolding rstrip
strip t = rstrip (lstrip t)

-- t.endswith(s)
unfoldable pub ends_with : Text → Text → Bool
ends_with s t = starts_with (reverse s) (reverse t)

-- t.find(s), where `none` is -1
unfoldable pub find_text : Text → Text → Option ℕ
find_text s [] = if starts_with s [] then some 0 else none
find_text s (c ∷ t) =
    let later = Option.map suc (find_text s t) in if starts_with s (c ∷ t) then some 0 else later

abbrev pub is_found : Option ℕ → Bool
is_found none = false
is_found (some n) = true

-- t.count(s) of a text that is not empty, without overlaps: `skip` characters of a match are left.
count_from : ℕ → Text → Text → ℕ
count_from skip s [] = 0
count_from (suc skip) s (c ∷ t) = count_from skip s t
count_from zero s (c ∷ t) =
    let here = suc (count_from (length (drop 1 s)) s t) in
    let later = count_from zero s t in if starts_with s (c ∷ t) then here else later

unfoldable pub count_text : Text → Text → ℕ
unfolding count_from
count_text s t = count_from 0 s t

-- t.replace(s, r) of a text `s` that is not empty
replace_from : ℕ → Text → Text → Text → Text
replace_from skip s r [] = []
replace_from (suc skip) s r (c ∷ t) = replace_from skip s r t
replace_from zero s r (c ∷ t) =
    let here = r ++ replace_from (length (drop 1 s)) s r t in
    let later = c ∷ replace_from zero s r t in if starts_with s (c ∷ t) then here else later

unfoldable pub replace_text : Text → Text → Text → Text
unfolding replace_from
replace_text s r t = replace_from 0 s r t

-- t.split(c) at a single character
split_from : ℕ → Text → Text → List Text
split_from c word [] = reverse word ∷ []
split_from c word (d ∷ t) =
    let here = reverse word ∷ split_from c [] t in
    let later = split_from c (d ∷ word) t in if d == c then here else later

unfoldable pub split_text : ℕ → Text → List Text
unfolding split_from
split_text c t = split_from c [] t

-- t.split(), with the word so far reversed
words_from : Text → Text → List Text
words_from [] [] = []
words_from (c ∷ word) [] = reverse (c ∷ word) ∷ []
words_from [] (d ∷ t) = elim (is_blank d) [ true ↦ words_from [] t | false ↦ words_from (d ∷ []) t ]
words_from (c ∷ word) (d ∷ t) = elim (is_blank d) [
  | true ↦ reverse (c ∷ word) ∷ words_from [] t
  | false ↦ words_from (d ∷ c ∷ word) t
]

unfoldable pub split_words : Text → List Text
unfolding words_from
split_words t = words_from [] t

-- chr(c).join(ts): the first text, and each of the others behind the separator.
abbrev pub join_rest : ℕ → List Text → Text
join_rest c [] = []
join_rest c (t ∷ ts) = c ∷ (t ++ join_rest c ts)

abbrev pub join_text : ℕ → List Text → Text
join_text c [] = []
join_text c (t ∷ ts) = t ++ join_rest c ts

join_rest-split_from :
    (c : ℕ) (word t : Text) → join_rest c (split_from c word t) ≡ c ∷ (reverse word ++ t)
unfolding split_from
join_rest-split_from c word [] = refl
join_rest-split_from c word (d ∷ t) = elim (Bool-cases (d == c)) [
  | inl same ↦
      let e : d ≡ c = ground arith in
      rw same (rw (join_rest-split_from c [] t) (ap (λ x. c ∷ (reverse word ++ x ∷ t)) (sym e)))
  | inr other ↦ rw other (
      join_rest-split_from c (d ∷ word) t
      ∙ ap (λ x. c ∷ x)
          (rw (reverse-append (d ∷ []) word) (append_assoc (reverse word) (d ∷ []) t)))
]

pub join_rest-split : (c : ℕ) (t : Text) → join_rest c (split_text c t) ≡ c ∷ t
unfolding split_text
join_rest-split c t = join_rest-split_from c [] t

-- The last text, and whether a text ends in the character.
abbrev pub last_from : Text → List Text → Text
last_from t [] = t
last_from t (u ∷ us) = last_from u us

abbrev pub last_of : List Text → Text
last_of [] = []
last_of (t ∷ ts) = last_from t ts

abbrev pub ends_in : ℕ → Text → Bool
ends_in c [] = false
ends_in c (d ∷ []) = d == c
ends_in c (d ∷ e ∷ t) = ends_in c (e ∷ t)

last_from-split_from :
    (c : ℕ) (word t u : Text) → last_from u (split_from c word t) ≡ last_of (split_from c word t)
unfolding split_from
last_from-split_from c word [] u = refl
last_from-split_from c word (d ∷ t) u = elim (Bool-cases (d == c)) [
  | inl same ↦ rw same refl
  | inr other ↦ rw other (last_from-split_from c (d ∷ word) t u)
]

is_nil-reverse : (c : ℕ) (t : Text) → is_nil (reverse (c ∷ t)) ≡ false
is_nil-reverse c t = rw (reverse-append (c ∷ []) t) (is_nil-snoc (reverse t))
  where
    is_nil-snoc : (u : Text) → is_nil (u ++ c ∷ []) ≡ false
    is_nil-snoc [] = refl
    is_nil-snoc (d ∷ u) = refl

is_nil-last_split_from :
    (c d : ℕ) (word t : Text) → is_nil (last_of (split_from c word (d ∷ t))) ≡ ends_in c (d ∷ t)
unfolding split_from
is_nil-last_split_from c d word [] = elim (Bool-cases (d == c)) [
  | inl same ↦ rw same refl
  | inr other ↦ rw other (is_nil-reverse d word)
]
is_nil-last_split_from c d word (e ∷ t) = elim (Bool-cases (d == c)) [
  | inl same ↦ rw same (
      ap is_nil (last_from-split_from c [] (e ∷ t) (reverse word))
      ∙ is_nil-last_split_from c e [] t)
  | inr other ↦ rw other (is_nil-last_split_from c e (d ∷ word) t)
]

-- The last part of a text is empty where the text is, or ends in the separator.
pub is_nil-last_split :
    (c : ℕ) (t : Text) → is_nil (last_of (split_text c t)) ≡ is_nil t || ends_in c t
unfolding split_text split_from
is_nil-last_split c [] = refl
is_nil-last_split c (d ∷ t) = is_nil-last_split_from c d [] t

pub last_from-split : (c : ℕ) (t u : Text) → last_from u (split_text c t) ≡ last_of (split_text c t)
unfolding split_text
last_from-split c t u = last_from-split_from c [] t u

length-split_from : (c : ℕ) (word t : Text) → 0 < length (split_from c word t)
unfolding split_from
length-split_from c word [] = omega arith
length-split_from c word (d ∷ t) = ground (arith, length-split_from c (d ∷ word) t)

pub length-split : (c : ℕ) (t : Text) → 0 < length (split_text c t)
unfolding split_text
length-split c t = length-split_from c [] t

-- One character, counted: as in the text, and additive.
abbrev pub count_char : ℕ → Text → ℕ
count_char c [] = 0
count_char c (d ∷ t) = (if d == c then 1 else 0) + count_char c t

starts_with-nil : (t : Text) → starts_with [] t ≡ true
starts_with-nil [] = refl
starts_with-nil (c ∷ t) = refl

pub count_text-char : (c : ℕ) (t : Text) → count_text (c ∷ []) t ≡ count_char c t
unfolding count_text count_from
count_text-char c [] = refl
count_text-char c (d ∷ t) = ground (arith, count_text-char c t, starts_with-nil t)

pub count_char-append :
    (c : ℕ) (t u : Text) → count_char c (t ++ u) ≡ count_char c t + count_char c u
count_char-append c [] u = omega arith
count_char-append c (d ∷ t) u = omega (arith, count_char-append c t u)

strips : strip (codes "  a b ") ≡ codes "a b"
unfolding strip
strips = refl

finds : find_text (codes "//") (codes "a / b // c") ≡ some 6
unfolding find_text
finds = refl

counts : count_text (codes "aa") (codes "aaa baa") ≡ 2
unfolding count_text
counts = refl

replaces : replace_text (codes "-inl.h") (codes ".h") (codes "a-inl.h") ≡ codes "a.h"
unfolding replace_text
replaces = refl

splits_words : split_words (codes " #ifndef  A_H_ ") ≡ codes "#ifndef" ∷ codes "A_H_" ∷ []
unfolding split_words
splits_words = refl
