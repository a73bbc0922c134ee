-- ===== src/Sections/Assign.antt =====
-- Lines `key=value` that the editors write, and what is read from them.
use dawos_agent.Prelude.{
  ℕ, Text, text_eq, nat_eq, Bool, true, false, ◌==◌, ==_iff, Option-cases, inl, inr, all, none,
  some, [], ◌∷◌, ◌++◌, ◌≡◌, refl, ap, ◌∙◌, arith, if◌then◌else◌,
}
use dawos_agent.Prelude.Texts.{to_lower, is_space, strip_left, strip}
use dawos_agent.Prelude.Texts.Lines.{is_break, IsLine, any-append}
use dawos_agent.Prelude.Texts.Numbers.{
  is_digit, decimal, leading_number, leading_number-decimal, all-decimal,
}
use dawos_agent.Prelude.Texts.Strip.{IsTrimmed, strip-IsTrimmed, append-IsTrimmed, digits-IsTrimmed}
use dawos_agent.Sections.{is_some, after_equals, number_at, after_key, key_rest, key_number}

-- A key in lower case, as the editors spell them.
abbrev pub is_lower_case : Text → Bool
is_lower_case key = all (λ c. to_lower c == c) key

after_key-append :
    (key rest : Text)
    → is_lower_case key ≡ true
    → after_key key (key ++ rest) ≡ some (strip_left rest)
unfolding after_key
after_key-append [] rest h = refl
after_key-append (c ∷ key) rest h =
    let same : (to_lower c == c) ≡ true = ground (arith, h) in
    let others : is_lower_case key ≡ true = ground (arith, h) in
    rw same (after_key-append key rest others)

strip_left-equals : (v : Text) → strip_left (b'=' ∷ v) ≡ b'=' ∷ v
unfolding strip_left is_space
strip_left-equals v = refl

pub key_rest-assignment :
    (key v : Text) → is_lower_case key ≡ true → key_rest key (key ++ (b'=' ∷ v)) ≡ some v
unfolding key_rest
key_rest-assignment key v h =
    ap after_equals (after_key-append key (b'=' ∷ v) h ∙ ap some (strip_left-equals v))

pub key_number-assignment :
    (key : Text) (n : ℕ)
    → is_lower_case key ≡ true
    → key_number key (key ++ (b'=' ∷ decimal n)) ≡ some n
unfolding key_number
key_number-assignment key n h =
    ap number_at (key_rest-assignment key (decimal n) h)
    ∙ ap leading_number (digits-IsTrimmed (decimal n) (all-decimal n)).front
    ∙ leading_number-decimal n

-- A line `prefix` + number is not changed by `strip`, and it stands on one line.
pub strip-number :
    (prefix : Text) (n : ℕ) → IsTrimmed prefix → strip (prefix ++ decimal n) ≡ prefix ++ decimal n
strip-number prefix n h =
    strip-IsTrimmed (prefix ++ decimal n)
      (append-IsTrimmed prefix (decimal n) h (digits-IsTrimmed (decimal n) (all-decimal n)))

digits-IsLine : (t : Text) → all is_digit t ≡ true → IsLine t
digits-IsLine [] h = refl
digits-IsLine (c ∷ cs) h =
    let plain : is_break c ≡ false = unfold is_break in ground (arith, h) in
    let rest : IsLine cs = digits-IsLine cs (ground (arith, h)) in ground (arith, plain, rest)

pub number-IsLine : (prefix : Text) (n : ℕ) → IsLine prefix → IsLine (prefix ++ decimal n)
number-IsLine prefix n h =
    any-append is_break prefix (decimal n)
    ∙ ground (arith, h, digits-IsLine (decimal n) (all-decimal n))

-- Two keys that differ at a place that both have.
unfoldable pub clash : Text → Text → Bool
clash (a ∷ k) (b ∷ l) = let rest = clash k l in if a == b then rest else true
clash _ _ = false

after_key-clash :
    (k l line : Text)
    → clash k l ≡ true
    → is_some (after_key k line) ≡ true
    → after_key l line ≡ none
unfolding clash after_key
after_key-clash [] l line h found = absurd (cc)
after_key-clash (a ∷ k) [] line h found = absurd (cc)
after_key-clash (a ∷ k) (b ∷ l) [] h found = refl
after_key-clash (a ∷ k) (b ∷ l) (c ∷ line) h found =
    ground (arith, h, found, after_key-clash k l line, ==_iff (to_lower c) a, ==_iff (to_lower c) b)

-- A line that assigns to one key has no number for the other.
pub key_number-clash :
    (k l line : Text)
    → clash k l ≡ true
    → is_some (key_rest k line) ≡ true
    → key_number l line ≡ none
unfolding key_number key_rest
key_number-clash k l line h found =
    ap (λ o. number_at (after_equals o)) (after_key-clash k l line h (ground (arith, found)))

pub key_number-unset :
    (k line : Text) → is_some (key_rest k line) ≡ false → key_number k line ≡ none
unfolding key_number
key_number-unset k line h = elim (Option-cases (key_rest k line)) [
  | inl nothing ↦ ap number_at nothing
  | inr (r, found) ↦ absurd (cc (h, ap is_some found))
]
