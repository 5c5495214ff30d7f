-- ===== src/Lint/Checks/Explicit/Arguments.antt =====
-- .linters/cpp/cpplint.py: how the arguments of a constructor are put together again.
use nebula_chaos.Prelude.{
  ◌⊎◌, subst, ◌≡◌, ◌≤◌, ◌<◌, refl, Bool, true, not, none, some, List, [], ◌∷◌, ◌++◌, arith, all,
  Text, codes, count_text, split_text, Bool-cases, Option-cases, inl, inr, sym, ap, ◌∙◌,
  append_assoc, join_rest, join_text, join_rest-split, count_char, count_text-char,
  count_char-append,
}
use nebula_chaos.Lint.Checks.Explicit.{
  is_unfinished, collapse_rest, collapse_args, constructor_args,
}

abbrev pub is_finished : Text → Bool
is_finished arg = not (is_unfinished arg)

-- The arguments in the order of the text, with each bracket closed in its argument.
collapse_rest-join :
    (arg : Text) (rest args : List Text)
    → collapse_rest arg rest ≡ some args
    → (join_rest 44 args ≡ 44 ∷ (arg ++ join_rest 44 rest)) × (all is_finished args ≡ true)
unfolding collapse_rest
collapse_rest-join arg [] args e = elim (Bool-cases (is_unfinished arg)) [
  | inl u ↦ ground arith
  | inr f ↦ ground arith
]
collapse_rest-join arg (next ∷ rest) args e = elim (Bool-cases (is_unfinished arg)) [
  | inl u ↦
      let (j, a) = collapse_rest-join (arg ++ (codes "," ++ next)) rest args (ground arith) in
      (
        j
            ∙ ap (λ x. 44 ∷ x)
                (append_assoc arg (codes "," ++ next) (join_rest 44 rest)
                  ∙ ap (λ x. arg ++ x) (append_assoc (codes ",") next (join_rest 44 rest))),
        a,
      )
  | inr f ↦ elim (Option-cases (collapse_rest next rest)) [
    | inl n ↦ ground arith
    | inr (more, s) ↦
        let (j, a) = collapse_rest-join next rest more s in
        let same : args ≡ arg ∷ more = ground arith in
        (ap (join_rest 44) same ∙ ap (λ x. 44 ∷ (arg ++ x)) j, rw same (ground arith))
  ]
]

join_rest-tail : (ts : List Text) (t : Text) → join_rest 44 ts ≡ 44 ∷ t → join_text 44 ts ≡ t
join_rest-tail [] t e = ground arith
join_rest-tail (x ∷ ts) t e = ground arith

-- The arguments of a constructor, put together with commas, are the text between its brackets, and
-- each of them closes the brackets that it opens, where no IndexError is raised.
pub constructor_args-join :
    (t : Text) (args : List Text)
    → constructor_args t ≡ some args
    → (join_text 44 args ≡ t) × (all is_finished args ≡ true)
unfolding constructor_args collapse_args
constructor_args-join [] args e = ground arith
constructor_args-join (c ∷ t) args e = elim (Split-cases (split_text 44 (c ∷ t))) [
  | inl n ↦ ground (arith, join_rest-split 44 (c ∷ t))
  | inr (arg, rest, s) ↦
      let (j, a) = collapse_rest-join arg rest args (ground arith) in
      (join_rest-tail args (c ∷ t) (j ∙ ap (join_rest 44) (sym s) ∙ join_rest-split 44 (c ∷ t)), a)
]
  where
    Split-cases : (ts : List Text) → (ts ≡ []) ⊎ ((x : Text) × (xs : List Text) × (ts ≡ x ∷ xs))
    Split-cases [] = inl refl
    Split-cases (x ∷ xs) = inr (x, xs, refl)

finished-counts :
    (t : Text)
    → is_finished t ≡ true
    → (count_char 60 t ≤ count_char 62 t) × (count_char 40 t ≤ count_char 41 t)
unfolding is_unfinished
finished-counts t f =
    ground (
      arith,
      count_text-char 60 t,
      count_text-char 62 t,
      count_text-char 40 t,
      count_text-char 41 t,
    )

finished-join_counts :
    (ts : List Text)
    → all is_finished ts ≡ true
    → (count_char 60 (join_rest 44 ts) ≤ count_char 62 (join_rest 44 ts))
      × (count_char 40 (join_rest 44 ts) ≤ count_char 41 (join_rest 44 ts))
finished-join_counts [] f = (omega arith, omega arith)
finished-join_counts (t ∷ ts) f =
    let (a, b) = finished-counts t (ground arith) in
    let (c, d) = finished-join_counts ts (ground arith) in
    let rest = join_rest 44 ts in
    (
      omega (arith, a, c, count_char-append 60 t rest, count_char-append 62 t rest),
      omega (arith, b, d, count_char-append 40 t rest, count_char-append 41 t rest),
    )

join_text-counts :
    (ts : List Text)
    → all is_finished ts ≡ true
    → (count_char 60 (join_text 44 ts) ≤ count_char 62 (join_text 44 ts))
      × (count_char 40 (join_text 44 ts) ≤ count_char 41 (join_text 44 ts))
join_text-counts [] f = (omega arith, omega arith)
join_text-counts (t ∷ ts) f =
    let (a, b) = finished-join_counts (t ∷ ts) f in (omega (arith, a), omega (arith, b))

-- A text between the brackets of a constructor with more `<` than `>` raises an IndexError.
pub constructor_args-raises :
    (t : Text) → count_text (codes ">") t < count_text (codes "<") t → constructor_args t ≡ none
constructor_args-raises t h = elim (Option-cases (constructor_args t)) [
  | inl n ↦ n
  | inr (args, s) ↦
      let (j, f) = constructor_args-join t args s in
      let (a, b) = join_text-counts args f in
      let c = subst (λ x. count_char 60 x ≤ count_char 62 x) j a in
      absurd (omega (arith, c, h, count_text-char 60 t, count_text-char 62 t))
]
