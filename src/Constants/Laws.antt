-- ===== src/Constants/Laws.antt =====
-- Texts of these characters stand on one line, and nothing is stripped from them.
use dawos_agent.Prelude.{
  ℕ, Text, nat_eq, Bool, true, false, ◌&&◌, not, all, [], ◌∷◌, reverse, ◌≡◌, refl, arith,
}
use dawos_agent.Prelude.Texts.{is_space, strip_left}
use dawos_agent.Prelude.Texts.Lines.{is_break, IsLine}
use dawos_agent.Prelude.Texts.Numbers.{is_digit}
use dawos_agent.Prelude.Texts.Strip.{IsTrimmed, all-reverse}
use dawos_agent.Constants.{is_name_char, is_safe_name}

-- No white space and no line end.
abbrev pub is_solid : ℕ → Bool
is_solid c = not (is_space c) && not (is_break c)

solid-front : (t : Text) → all is_solid t ≡ true → strip_left t ≡ t
unfolding strip_left
solid-front [] h = refl
solid-front (c ∷ cs) h = let plain : is_space c ≡ false = ground (arith, h) in rw plain refl

pub solid-IsTrimmed : (t : Text) → all is_solid t ≡ true → IsTrimmed t
solid-IsTrimmed t h = record {
  front = solid-front t h;
  back = solid-front (reverse t) (all-reverse is_solid t h);
}

pub solid-IsLine : (t : Text) → all is_solid t ≡ true → IsLine t
solid-IsLine [] h = refl
solid-IsLine (c ∷ cs) h =
    let rest : IsLine cs = solid-IsLine cs (ground (arith, h)) in ground (arith, h, rest)

pub is_digit-solid : (c : ℕ) → is_digit c ≡ true → is_solid c ≡ true
unfolding is_space is_break
is_digit-solid c h = ground (arith, h)

is_name_char-solid : (c : ℕ) → is_name_char c ≡ true → is_solid c ≡ true
unfolding is_space is_break is_name_char
is_name_char-solid c h = ground (arith, h)

pub all-solid :
    (p : ℕ → Bool) (t : Text)
    → ((c : ℕ) → p c ≡ true → is_solid c ≡ true)
    → all p t ≡ true
    → all is_solid t ≡ true
all-solid p [] h k = refl
all-solid p (c ∷ t) h k = ground (arith, h c, k, all-solid p t h)

pub is_safe_name-solid : (t : Text) → is_safe_name t ≡ true → all is_solid t ≡ true
unfolding is_safe_name
is_safe_name-solid [] h = refl
is_safe_name-solid (c ∷ t) h = all-solid is_name_char (c ∷ t) is_name_char-solid h
