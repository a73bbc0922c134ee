-- ===== src/ConfigValidator/Issues.antt =====
-- The checks of a line find an error exactly when the description refuses it.
use dawos_agent.Prelude.{
  ℕ, Text, text_eq, nat_eq, Bool, true, false, ◌==◌, ◌||◌, ◌&&◌, not, all, count_if, ltb, leb,
  Option, none, some, List, [], ◌∷◌, ◌++◌, if◌then◌else◌, ◌≡◌, refl, ◌∙◌, arith, Bool-cases, inl,
  inr,
}
use dawos_agent.Prelude.Texts.{strip, has_char}
use dawos_agent.Prelude.Texts.Split.{cut, split_on}
use dawos_agent.ConfigValidator.{check_value, check_key_line, check_line, is_error}
use dawos_agent.ConfigValidator.Patterns.{key_value, is_ip, is_cidr, is_port}
use dawos_agent.ConfigValidator.Checks.{
  Issue, one_of, port_keys, first_part, port_of, check_port, check_address, check_ip_values,
  check_sub_key, check_sub_keys, check_port_value,
}
use dawos_agent.ConfigValidator.Described.{
  is_good_port, is_good_part, has_good_ports, is_good_host, has_good_addresses, is_good_value,
}

abbrev pub no_error : List Issue → Bool
no_error issues = all (λ issue. not (is_error issue)) issues

all-append :
    {A : Type 0} (p : A → Bool) (xs ys : List A) → all p (xs ++ ys) ≡ (all p xs && all p ys)
all-append p [] ys = refl
all-append p (x ∷ xs) ys = ground (arith, all-append p xs ys)

pub no_error-append : (xs ys : List Issue) → no_error (xs ++ ys) ≡ (no_error xs && no_error ys)
no_error-append xs ys = all-append (λ issue. not (is_error issue)) xs ys

pub count_if-no_error : (issues : List Issue) → (count_if is_error issues == 0) ≡ no_error issues
count_if-no_error [] = refl
count_if-no_error (i ∷ issues) = ground (arith, count_if-no_error issues)

good_port :
    (seen : Bool) (n : ℕ) (i : Issue)
    → is_error i ≡ true
    → no_error (if seen && (ltb n 1 || ltb 65535 n) then i ∷ [] else [])
      ≡ (not seen || (leb 1 n && leb n 65535))
good_port seen n i e = ground arith

check_port-good :
    (lineno : ℕ) (section key t : Text)
    → no_error (check_port lineno section key t) ≡ is_good_port t
check_port-good lineno section key t = good_port (is_port t) (port_of t) _ refl

when_good :
    (b c : Bool) (issues : List Issue) (good : Bool)
    → no_error issues ≡ good
    → no_error (if b && c then issues else []) ≡ (not b || not c || good)
when_good true true issues good h = h
when_good true false issues good h = refl
when_good false c issues good h = refl

sub_key-good :
    (lineno : ℕ) (section part : Text)
    → no_error (check_sub_key lineno section part) ≡ is_good_part part
sub_key-good lineno section part =
    when_good (has_char b'=' part) (one_of (strip (cut b'=' part).0) port_keys) _ _
      (check_port-good lineno section _ _)

sub_keys-good :
    (lineno : ℕ) (section : Text) (parts : List Text)
    → no_error (check_sub_keys lineno section parts) ≡ all (λ part. is_good_part (strip part)) parts
unfolding check_sub_keys
sub_keys-good lineno section [] = refl
sub_keys-good lineno section (part ∷ parts) =
    no_error-append (check_sub_key lineno section (strip part))
      (check_sub_keys lineno section parts)
    ∙ rw (sub_key-good lineno section (strip part), sub_keys-good lineno section parts) refl

port_value-good :
    (lineno : ℕ) (section key v : Text)
    → no_error (check_port_value lineno section key v) ≡ has_good_ports key v
unfolding check_port_value
port_value-good lineno section key v = elim (Bool-cases (one_of key port_keys)) [
  | inl e ↦ rw e (check_port-good lineno section key _)
  | inr e ↦ rw e (elim (Bool-cases (has_char b',' v)) [
    | inl c ↦ rw c (sub_keys-good lineno section (split_on b',' v))
    | inr c ↦ rw c refl
  ])
]

addresses_good :
    (cidr network ip address comma colon : Bool) (i j : Issue) (first host : List Issue)
    (good_first good_host : Bool)
    → is_error i ≡ true
    → is_error j ≡ true
    → no_error first ≡ good_first
    → no_error host ≡ good_host
    → no_error (
        if cidr
        then (if network then [] else i ∷ [])
        else if ip
        then (if ip && not address then j ∷ [] else [])
        else ((if comma then first else []) ++ (if colon && not comma then host else [])))
      ≡ (if cidr
          then network
          else if ip
          then address
          else (not comma || good_first) && (not colon || comma || good_host))
addresses_good true true ip address comma colon i j first host f h a b c d = refl
addresses_good true false ip address comma colon i j first host f h a b c d = ground (arith, a)
addresses_good false network true true comma colon i j first host f h a b c d = refl
addresses_good false network true false comma colon i j first host f h a b c d = ground (arith, b)
addresses_good false network false address true true i j first host f h a b c d =
    no_error-append first [] ∙ ground (arith, c)
addresses_good false network false address true false i j first host f h a b c d =
    no_error-append first [] ∙ ground (arith, c)
addresses_good false network false address false true i j first host f h a b c d = d
addresses_good false network false address false false i j first host f h a b c d = refl

module _ (is_network is_address : Text → Bool) where
  address-good :
      (lineno : ℕ) (section key host : Text)
      → no_error (check_address is_network is_address lineno section key host host)
        ≡ is_good_host is_network is_address host
  address-good lineno section key host = ground arith

  ip_values-good :
      (lineno : ℕ) (section key v : Text)
      → no_error (check_ip_values is_network is_address lineno section key v)
        ≡ has_good_addresses is_network is_address v
  unfolding check_ip_values
  ip_values-good lineno section key v =
      addresses_good (is_cidr v) (is_network v) (is_ip v) (is_address v) (has_char b',' v)
        (has_char b':' v) _ _ _ _ _ _ refl refl
        (address-good lineno section key (strip (first_part b',' v)))
        (address-good lineno section key (first_part b':' v))

  value-good :
      (lineno : ℕ) (section key v : Text)
      → no_error (check_value is_network is_address lineno section key v)
        ≡ ((v == []) || (has_good_addresses is_network is_address v && has_good_ports key v))
  unfolding check_value
  value-good lineno section key v = elim (Bool-cases (v == [])) [
    | inl e ↦ rw e refl
    | inr e ↦ rw e (
        no_error-append (check_ip_values is_network is_address lineno section key v)
          (check_port_value lineno section key v)
        ∙ rw (ip_values-good lineno section key v, port_value-good lineno section key v) refl)
  ]

  key_line-good :
      (lineno : ℕ) (section line : Text) (kv : Option (Text × Text))
      → no_error (check_key_line is_network is_address lineno section line kv)
        ≡ is_good_value is_network is_address kv
  key_line-good lineno section line none = ground arith
  key_line-good lineno section line (some (key, rest)) = value-good lineno section key (strip rest)

  -- A line that is no header is an error outside the sections, and inside when its value is bad.
  pub line-good :
      (lineno : ℕ) (section line : Text)
      → no_error (check_line is_network is_address lineno section line)
        ≡ (not (section == []) && is_good_value is_network is_address (key_value line))
  unfolding check_line
  line-good lineno section line = elim (Bool-cases (section == [])) [
    | inl e ↦ rw e refl
    | inr e ↦ rw e (key_line-good lineno section line (key_value line))
  ]
