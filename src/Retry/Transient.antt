-- ===== src/Retry/Transient.antt =====
-- Which error messages count as transient.
use dawos_agent.Prelude.{
  Text, List, [], ◌∷◌, ◌++◌, map, ◌≡◌, refl, ap, ◌↔◌, ◌⊎◌, inl, inr, arith, true, nat_eq, any,
  ==_iff, Bool-cases,
}
use dawos_agent.Prelude.Texts.{starts_with, occurs_in, to_lower}
use dawos_agent.Retry.{is_transient, transient_patterns}

starts_with_sound : (p text : Text) → starts_with p text ≡ true → (post : Text) × (text ≡ p ++ post)
unfolding starts_with
starts_with_sound [] text h = (text, refl)
starts_with_sound (c ∷ p) [] h = cc
starts_with_sound (c ∷ p) (d ∷ text) h =
    let (post, e) = starts_with_sound p text (ground arith) in (post, ground (arith, e, ==_iff c d))

starts_with_complete : (p post : Text) → starts_with p (p ++ post) ≡ true
unfolding starts_with
starts_with_complete [] post = refl
starts_with_complete (c ∷ p) post = ground (arith, starts_with_complete p post, ==_iff c c)

-- `sub` stands somewhere in `text`.
abbrev pub Contains : Text → Text → Type 0
Contains sub text = (pre : Text) × (post : Text) × (text ≡ pre ++ (sub ++ post))

occurs_in_sound : (sub text : Text) → occurs_in sub text ≡ true → Contains sub text
unfolding occurs_in
occurs_in_sound sub [] h = let (post, e) = starts_with_sound sub [] h in ([], post, e)
occurs_in_sound sub (c ∷ text) h = elim (Bool-cases (starts_with sub (c ∷ text))) [
  | inl here ↦ let (post, e) = starts_with_sound sub (c ∷ text) here in ([], post, e)
  | inr later ↦
      let (pre, post, e) = occurs_in_sound sub text (ground arith) in
      (c ∷ pre, post, ap (λ t. c ∷ t) e)
]

occurs_at_start : (sub text : Text) → starts_with sub text ≡ true → occurs_in sub text ≡ true
unfolding occurs_in
occurs_at_start sub [] h = h
occurs_at_start sub (c ∷ text) h = ground arith

occurs_in-append : (pre sub post : Text) → occurs_in sub (pre ++ (sub ++ post)) ≡ true
unfolding occurs_in
occurs_in-append [] sub post = occurs_at_start sub (sub ++ post) (starts_with_complete sub post)
occurs_in-append (c ∷ pre) sub post = ground (arith, occurs_in-append pre sub post)

-- One of the patterns stands in the text.
abbrev pub SomeIn : List Text → Text → Type 0
SomeIn [] text = ⊥
SomeIn (p ∷ ps) text = Contains p text ⊎ SomeIn ps text

any_sound : (ps : List Text) (text : Text) → any (λ p. occurs_in p text) ps ≡ true → SomeIn ps text
any_sound [] text h = cc
any_sound (p ∷ ps) text h = elim (Bool-cases (occurs_in p text)) [
  | inl here ↦ inl (occurs_in_sound p text here)
  | inr later ↦ inr (any_sound ps text (ground arith))
]

any_complete :
    (ps : List Text) (text : Text) → SomeIn ps text → any (λ p. occurs_in p text) ps ≡ true
any_complete (p ∷ ps) text (inl (pre, post, e)) =
    let found : occurs_in p text ≡ true = rw e (occurs_in-append pre p post) in ground arith
any_complete (p ∷ ps) text (inr later) = ground (arith, any_complete ps text later)
any_complete [] text h = absurd h

-- A message is transient exactly when one of the patterns stands in it as a substring, upper case
-- read as lower case.
pub is_transient_iff :
    (text : Text) → (is_transient text ≡ true) ↔ SomeIn transient_patterns (map to_lower text)
is_transient_iff text =
    unfold is_transient in
    (
      any_sound transient_patterns (map to_lower text),
      any_complete transient_patterns (map to_lower text),
    )
