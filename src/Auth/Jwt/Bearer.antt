-- ===== src/Auth/Jwt/Bearer.antt =====
-- The `Authorization` header, read back.
use iot_miniservers.Prelude.{
  ℕ, ◌≡◌, refl, sym, ◌∙◌, ap, Bool, true, false, not, some, [], ◌∷◌, ◌++◌, append_assoc, append-nil,
  reverse, reverse_aux, reverse-append, reverse-reverse, Text, text, every, arith, Bool-cases, ◌==◌,
  text_eq, ◌&&◌, inl, inr,
}
use iot_miniservers.Auth.Jwt.{is_space, trim_start, trim, split_from, of_header, lower_case}

abbrev pub no_space : ℕ → Bool
no_space c = not (is_space c)

split_from-word :
    (word w s : Text)
    → every no_space w ≡ true
    → split_from false word (w ++ s) ≡ split_from false (word ++ w) s
unfolding split_from
split_from-word word [] s h = rw append-nil
split_from-word word (c ∷ w) s h = elim (Bool-cases (is_space c)) [
  | inl e ↦ ground arith
  | inr e ↦
      rw (e, split_from) (split_from-word (word ++ c ∷ []) w s (ground arith) ∙ rw append_assoc)
]

split_from-gap :
    (pad s : Text)
    → every is_space pad ≡ true
    → split_from true [] (pad ++ s) ≡ split_from true [] s
unfolding split_from
split_from-gap [] s h = refl
split_from-gap (c ∷ pad) s h = elim (Bool-cases (is_space c)) [
  | inl e ↦ rw (e, split_from) (split_from-gap pad s (ground arith))
  | inr e ↦ ground arith
]

every-append : (p : ℕ → Bool) (xs ys : Text) → every p (xs ++ ys) ≡ (every p xs && every p ys)
every-append p [] ys = refl
every-append p (x ∷ xs) ys = ground (arith, every-append p xs ys)

every-reverse_aux :
    (p : ℕ → Bool) (xs ys : Text) → every p (reverse_aux xs ys) ≡ (every p xs && every p ys)
every-reverse_aux p [] ys = refl
every-reverse_aux p (x ∷ xs) ys = ground (arith, every-reverse_aux p xs (x ∷ ys))

first_of_every : (p : ℕ → Bool) (d : ℕ) (t : Text) → every p (d ∷ t) ≡ true → p d ≡ true
first_of_every p d t h = ground arith

reverse-cases :
    (c : ℕ) (s : Text)
    → every no_space (c ∷ s) ≡ true
    → (d : ℕ) × (t : Text) × (reverse (c ∷ s) ≡ d ∷ t) × (no_space d ≡ true)
reverse-cases c s h = head_of (reverse (c ∷ s)) refl (every-reverse_aux no_space (c ∷ s) [])
  where
    head_of :
        (r : Text)
        → reverse (c ∷ s) ≡ r
        → every no_space (reverse (c ∷ s)) ≡ (every no_space (c ∷ s) && true)
        → (d : ℕ) × (t : Text) × (reverse (c ∷ s) ≡ d ∷ t) × (no_space d ≡ true)
    head_of [] e k =
        let impossible : c ∷ s ≡ [] = sym (reverse-reverse (c ∷ s)) ∙ ap reverse e in cc
    head_of (d ∷ t) e k =
        (d, t, e, first_of_every no_space d t (ap (every no_space) (sym e) ∙ k ∙ rw h))

trim_start-id : (c : ℕ) (s : Text) → no_space c ≡ true → trim_start (c ∷ s) ≡ c ∷ s
unfolding trim_start
trim_start-id c s h = ground arith

-- A text that neither begins nor ends with a space is its own trim.
trim-id :
    (a : ℕ) (s : Text) (c : ℕ) (w : Text)
    → no_space a ≡ true
    → every no_space (c ∷ w) ≡ true
    → trim ((a ∷ s) ++ c ∷ w) ≡ (a ∷ s) ++ c ∷ w
unfolding trim
trim-id a s c w first last =
    let (d, t, e, h) = reverse-cases c w last in
    let turned : reverse ((a ∷ s) ++ c ∷ w) ≡ d ∷ (t ++ reverse (a ∷ s)) =
      reverse-append (a ∷ s) (c ∷ w) ∙ ap (λ r. r ++ reverse (a ∷ s)) e in
    let kept : trim_start (reverse ((a ∷ s) ++ c ∷ w)) ≡ reverse ((a ∷ s) ++ c ∷ w) =
      ap trim_start turned ∙ trim_start-id d (t ++ reverse (a ∷ s)) h ∙ sym turned in
    ap (λ r. reverse (trim_start (reverse r))) (trim_start-id a (s ++ c ∷ w) first)
    ∙ ap reverse kept
    ∙ reverse-reverse ((a ∷ s) ++ c ∷ w)

trim-scheme :
    (a : ℕ) (scheme : Text) (gap : ℕ) (pad : Text) (c : ℕ) (token : Text)
    → no_space a ≡ true
    → every no_space (c ∷ token) ≡ true
    → trim (a ∷ (scheme ++ gap ∷ (pad ++ c ∷ token))) ≡ a ∷ (scheme ++ gap ∷ (pad ++ c ∷ token))
trim-scheme a scheme gap pad c token first whole =
    let regroup : a ∷ ((scheme ++ gap ∷ pad) ++ c ∷ token)
        ≡ a ∷ (scheme ++ gap ∷ (pad ++ c ∷ token)) =
      ap (λ r. a ∷ r) (append_assoc scheme (gap ∷ pad) (c ∷ token)) in
    ap trim (sym regroup) ∙ trim-id a (scheme ++ gap ∷ pad) c token first whole ∙ regroup

split_from-space :
    (word : Text) (c : ℕ) (s : Text)
    → is_space c ≡ true
    → split_from false word (c ∷ s) ≡ word ∷ split_from true [] s
unfolding split_from
split_from-space word c s h = rw (h, split_from)

split_from-last :
    (c : ℕ) (token : Text)
    → every no_space (c ∷ token) ≡ true
    → split_from true [] (c ∷ token) ≡ (c ∷ token) ∷ []
unfolding split_from
split_from-last c token h =
    let start : is_space c ≡ false = ground arith in
    rw (start, split_from)
      (ap (split_from false (c ∷ [])) (sym (append-nil token))
        ∙ split_from-word (c ∷ []) token [] (ground arith))

split_from-scheme :
    (a : ℕ) (scheme : Text) (gap : ℕ) (pad : Text) (c : ℕ) (token : Text)
    → every no_space (a ∷ scheme) ≡ true
    → every is_space (gap ∷ pad) ≡ true
    → every no_space (c ∷ token) ≡ true
    → split_from false [] (a ∷ (scheme ++ gap ∷ (pad ++ c ∷ token)))
      ≡ (a ∷ scheme) ∷ (c ∷ token) ∷ []
split_from-scheme a scheme gap pad c token solid spaced whole =
    split_from-word [] (a ∷ scheme) (gap ∷ (pad ++ c ∷ token)) solid
    ∙ split_from-space (a ∷ scheme) gap (pad ++ c ∷ token) (ground arith)
    ∙ ap (λ r. (a ∷ scheme) ∷ r)
        (split_from-gap pad (c ∷ token) (ground arith) ∙ split_from-last c token whole)

-- A header `<scheme><spaces><token>` whose scheme is `bearer` in any case gives the token: for a
-- token and a scheme that are not empty and hold no white space, and at least one white space
-- between them.
pub of_header-bearer :
    (is_not_empty : Text → Bool) (a : ℕ) (scheme : Text) (gap : ℕ) (pad : Text) (c : ℕ)
    (token : Text)
    → is_not_empty ((a ∷ scheme) ++ ((gap ∷ pad) ++ c ∷ token)) ≡ true
    → every no_space (a ∷ scheme) ≡ true
    → (lower_case (a ∷ scheme) == text "bearer") ≡ true
    → every is_space (gap ∷ pad) ≡ true
    → every no_space (c ∷ token) ≡ true
    → of_header is_not_empty (some ((a ∷ scheme) ++ ((gap ∷ pad) ++ c ∷ token))) ≡ some (c ∷ token)
unfolding of_header
of_header-bearer is_not_empty a scheme gap pad c token present solid named spaced whole =
    rw
      (
        present,
        trim-scheme a scheme gap pad c token (ground arith) whole,
        split_from-scheme a scheme gap pad c token solid spaced whole,
      )
      (ground (arith, named))
