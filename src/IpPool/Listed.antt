-- ===== src/IpPool/Listed.antt =====
-- What putting a line in does to the pools that are listed.
use dawos_agent.Prelude.{
  Text, text_eq, Bool, true, false, ◌||◌, Option, none, some, List, [], ◌∷◌, ◌≡◌, refl, ap, ◌∙◌,
  arith, Bool-cases, inl, inr,
}
use dawos_agent.Prelude.Texts.{strip}
use dawos_agent.Sections.{is_header, has_section, collect, before_rest}
use dawos_agent.Sections.Collected.{collect-header, collect-line}
use dawos_agent.IpPool.{Pool, in_ip_pool, listed_at, insert_line}

abbrev pub listed_pools : List Text → Bool → List Pool
listed_pools lines inside = collect in_ip_pool listed_at lines inside

-- `out` is `old` with one more pool at some place.
pub data Placed (pool : Pool) : List Pool → List Pool → Type 0 where
  here : {rest : List Pool} → Placed pool rest (pool ∷ rest)
  later :
      {old out : List Pool} (other : Pool)
      → Placed pool old out
      → Placed pool (other ∷ old) (other ∷ out)

before_rest-Placed :
    (pool : Pool) (o : Option Pool) {old out : List Pool}
    → Placed pool old out
    → Placed pool (before_rest o old) (before_rest o out)
before_rest-Placed pool none h = h
before_rest-Placed pool (some other) h = later other h

-- Once the line is in, nothing more is changed.
insert_line-done :
    (line : Text) (lines : List Text) (inside : Bool) → insert_line line lines inside true ≡ lines
unfolding insert_line
insert_line-done line [] inside = ground arith
insert_line-done line (raw ∷ lines) inside =
    rw (insert_line-done line lines (in_ip_pool (strip raw)), insert_line-done line lines inside)
      (ground arith)

-- Without the section no line is put in.
pub insert_line-nowhere :
    (line : Text) (lines : List Text) (inserted : Bool)
    → has_section in_ip_pool lines ≡ false
    → insert_line line lines false inserted ≡ lines
unfolding insert_line has_section
insert_line-nowhere line [] inserted h = refl
insert_line-nowhere line (raw ∷ lines) inserted h = elim (Bool-cases (is_header (strip raw))) [
  | inl opened ↦
      let other : in_ip_pool (strip raw) ≡ false = ground (arith, h, opened) in
      let rest : has_section in_ip_pool lines ≡ false = ground (arith, h) in
      rw (opened, other) (ap (λ l. raw ∷ l) (insert_line-nowhere line lines inserted rest))
  | inr plain ↦
      let rest : has_section in_ip_pool lines ≡ false = ground (arith, h) in
      rw plain (ap (λ l. raw ∷ l) (insert_line-nowhere line lines inserted rest))
]

module _ (line : Text) (pool : Pool) (plain : is_header (strip line) ≡ false)
    (reads : listed_at (strip line) ≡ some pool) where
  listed_pools-new :
      (lines : List Text) → listed_pools (line ∷ lines) true ≡ pool ∷ listed_pools lines true
  listed_pools-new lines =
      collect-line in_ip_pool listed_at line lines true plain
      ∙ ap (λ o. before_rest o (listed_pools lines true)) reads

  -- With the section, the new pool is listed at some place between the old ones.
  pub insert_line-Placed :
      (lines : List Text) (inside : Bool)
      → (inside || has_section in_ip_pool lines) ≡ true
      → Placed pool
          (listed_pools lines inside)
          (listed_pools (insert_line line lines inside false) inside)
  unfolding insert_line has_section
  insert_line-Placed [] true h = rw (listed_pools-new []) (here)
  insert_line-Placed [] false h = absurd (cc)
  insert_line-Placed (raw ∷ lines) true h = elim (Bool-cases (is_header (strip raw))) [
    | inl opened ↦
        rw
          (
            opened,
            insert_line-done line lines (in_ip_pool (strip raw)),
            listed_pools-new (raw ∷ lines),
          )
          here
    | inr other ↦
        rw
          (
            other,
            collect-line in_ip_pool listed_at raw lines true other,
            collect-line in_ip_pool listed_at raw (insert_line line lines true false) true other,
          )
          (before_rest-Placed pool (listed_at (strip raw)) (insert_line-Placed lines true refl))
  ]
  insert_line-Placed (raw ∷ lines) false h = elim (Bool-cases (is_header (strip raw))) [
    | inl opened ↦
        let next : (in_ip_pool (strip raw) || has_section in_ip_pool lines) ≡ true =
          ground (arith, h, opened) in
        rw
          (
            opened,
            collect-header in_ip_pool listed_at raw lines false opened,
            collect-header in_ip_pool listed_at raw
                (insert_line line lines (in_ip_pool (strip raw)) false) false opened,
          )
          (insert_line-Placed lines (in_ip_pool (strip raw)) next)
    | inr other ↦
        let next : has_section in_ip_pool lines ≡ true = ground (arith, h, other) in
        rw
          (
            other,
            collect-line in_ip_pool listed_at raw lines false other,
            collect-line in_ip_pool listed_at raw (insert_line line lines false false) false other,
          )
          (insert_line-Placed lines false next)
  ]
