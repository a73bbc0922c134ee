-- ===== src/IpPool/Left.antt =====
-- What taking lines out does to the pools that are listed.
use dawos_agent.Prelude.{
  Text, text_eq, Bool, true, false, ◌==◌, ◌||◌, ◌&&◌, Option, none, some, List, [], ◌∷◌, ◌≡◌, refl,
  sym, ap, ◌∙◌, arith, if◌then◌else◌, Bool-cases, inl, inr, All,
}
use dawos_agent.Prelude.Texts.{strip}
use dawos_agent.Prelude.Texts.Lines.{IsLine}
use dawos_agent.Sections.{is_header, collect, before_rest}
use dawos_agent.Sections.Collected.{collect-header, collect-line}
use dawos_agent.Sections.Headers.{any_header}
use dawos_agent.IpPool.{Pool, in_ip_pool, listed_at, pool_at, defines, remove_lines, has_name}
use dawos_agent.IpPool.PoolLine.{listed_at-pool_at}
use dawos_agent.IpPool.Listed.{listed_pools}

-- The pools of other names.
abbrev pub others : Text → List Pool → List Pool
others name [] = []
others name (pool ∷ pools) =
    if pool.name == name then others name pools else pool ∷ others name pools

-- The removal at a line, by what the line is.
module _ (name raw : Text) (lines : List Text) (inside : Bool) where
  remove-header :
      is_header (strip raw) ≡ true
      → remove_lines name (raw ∷ lines) inside ≡ (
        raw ∷ (remove_lines name lines (in_ip_pool (strip raw))).0,
        (remove_lines name lines (in_ip_pool (strip raw))).1,
      )
  unfolding remove_lines
  remove-header opened = rw opened refl

  remove-defined :
      is_header (strip raw) ≡ false
      → (inside && defines name (pool_at (strip raw))) ≡ true
      → remove_lines name (raw ∷ lines) inside ≡ ((remove_lines name lines inside).0, true)
  unfolding remove_lines
  remove-defined plain found = rw (plain, found) refl

  remove-other :
      is_header (strip raw) ≡ false
      → (inside && defines name (pool_at (strip raw))) ≡ false
      → remove_lines name (raw ∷ lines) inside
        ≡ (raw ∷ (remove_lines name lines inside).0, (remove_lines name lines inside).1)
  unfolding remove_lines
  remove-other plain other = rw (plain, other) refl

-- What the editor left of the lines: the pools of other names are listed as before and no other, a
-- line was left out if the name was listed, the headers are there, and all are lines.
pub record Left (name : Text) (lines : List Text) (inside : Bool) (left : List Text × Bool)
    : Type 0 where
  pub lists : listed_pools left.0 inside ≡ others name (listed_pools lines inside)
  pub found : left.1 ≡ has_name name (listed_pools lines inside)
  pub headers : any_header left.0 ≡ any_header lines
  pub one_line : All IsLine lines → All IsLine left.0

outside-line :
    (name : Text) (o : Option Pool) (inside : Bool) (old out : List Pool) (old_found : Bool)
    → (inside && defines name o) ≡ false
    → out ≡ others name old
    → old_found ≡ has_name name old
    → ((if inside then before_rest o out else out)
        ≡ others name (if inside then before_rest o old else old))
      × (old_found ≡ has_name name (if inside then before_rest o old else old))
outside-line name none inside old out b h k f = ground (arith, k, f)
outside-line name (some pool) inside old out b h k f = ground (arith, h, k, f)

defined-line :
    (name : Text) (o : Option Pool) (inside : Bool) (old out : List Pool)
    → (inside && defines name o) ≡ true
    → out ≡ others name old
    → (out ≡ others name (if inside then before_rest o old else old))
      × (true ≡ has_name name (if inside then before_rest o old else old))
defined-line name none inside old out h k = absurd (ground (arith, h))
defined-line name (some pool) inside old out h k = ground (arith, h, k)

pub remove_lines-Left :
    (name : Text) (lines : List Text) (inside : Bool)
    → Left name lines inside (remove_lines name lines inside)
remove_lines-Left name [] inside =
    unfold remove_lines collect in
    record { lists = refl; found = refl; headers = refl; one_line = λ h. h }
remove_lines-Left name (raw ∷ lines) inside = elim (Bool-cases (is_header (strip raw))) [
  | inl opened ↦
      let rest = remove_lines-Left name lines (in_ip_pool (strip raw)) in
      rw (remove-header name raw lines inside opened) (record {
        lists =
            collect-header in_ip_pool listed_at raw _ inside opened
            ∙ rest.lists
            ∙ ap (others name) (sym (collect-header in_ip_pool listed_at raw lines inside opened));
        found =
            rest.found
            ∙ ap (has_name name)
                (sym (collect-header in_ip_pool listed_at raw lines inside opened));
        headers = ap (λ b. is_header (strip raw) || b) rest.headers;
        one_line = λ h. (h.0, rest.one_line h.1);
      })
  | inr plain ↦
      let rest = remove_lines-Left name lines inside in
      let same = listed_at-pool_at (strip raw) in
      let line = collect-line in_ip_pool listed_at raw lines inside plain in
      elim (Bool-cases (inside && defines name (pool_at (strip raw)))) [
        | inl defined ↦
            let gone =
              defined-line name (listed_at (strip raw)) inside (listed_pools lines inside)
                (listed_pools (remove_lines name lines inside).0 inside) (rw same defined)
                rest.lists in
            rw (remove-defined name raw lines inside plain defined) (record {
              lists = gone.0 ∙ ap (others name) (sym line);
              found = gone.1 ∙ ap (has_name name) (sym line);
              headers = rest.headers ∙ rw plain refl;
              one_line = λ h. rest.one_line h.1;
            })
        | inr other ↦
            let kept =
              outside-line name (listed_at (strip raw)) inside (listed_pools lines inside)
                (listed_pools (remove_lines name lines inside).0 inside)
                (remove_lines name lines inside).1 (rw same other) rest.lists rest.found in
            rw (remove-other name raw lines inside plain other) (record {
              lists =
                  collect-line in_ip_pool listed_at raw _ inside plain
                  ∙ kept.0
                  ∙ ap (others name) (sym line);
              found = kept.1 ∙ ap (has_name name) (sym line);
              headers = ap (λ b. is_header (strip raw) || b) rest.headers;
              one_line = λ h. (h.0, rest.one_line h.1);
            })
      ]
]
