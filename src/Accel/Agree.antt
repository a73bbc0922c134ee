-- ===== src/Accel/Agree.antt =====
-- The two readers of `show stat` agree.
use dawos_agent.Prelude.{
  ℕ, Text, codes, text_eq, nat_eq, Bool, true, false, ◌==◌, ◌||◌, ◌&&◌, not, any, Option, none,
  some, List, [], ◌∷◌, ◌≡◌, refl, sym, ap, ◌∙◌, arith, Bool-cases, Option-cases, inl, inr,
  text_beq_iff,
}
use dawos_agent.Prelude.Texts.{strip, starts_with, ends_with, has_char}
use dawos_agent.Prelude.Texts.Lines.{lines_of}
use dawos_agent.Prelude.Texts.Split.{cut, strip_end}
use dawos_agent.Accel.{
  Stat, StatScan, is_sessions, section_at, top_stat, inner_stat, stat_line, stat_lines, starts_line,
  set_session, with_sessions, with_uptime, with_cpu, after_colon, no_stat, parse_stat,
}
use dawos_agent.Accel.Extended.{Extended, parse_radius_header}
use dawos_agent.Accel.Statistics.{
  flush, top_line, radius_started, in_section, inner_line, extended_line, extended_lines,
  no_extended, parse_stat_extended,
}

-- A line that `parse_stat_extended` raises at: a RADIUS header that is not closed.
abbrev pub is_open_radius : Text → Bool
is_open_radius raw =
    starts_line raw && starts_with (codes "radius(") (strip raw) && not (has_char b')' (strip raw))

-- The readers hold the same, and are both in the sessions or both not.
pub record Agree (s : StatScan) (x : Extended) : Type 0 where
  pub same_stat : x.stat ≡ s.stat
  pub same_section : is_sessions x.section ≡ is_sessions s.section

-- A line that begins otherwise opens no sessions.
other_section :
    (c : ℕ) (t : Text)
    → (c == b's') ≡ false
    → (c == b':') ≡ false
    → is_sessions (section_at (c ∷ t)) ≡ false
unfolding strip_end
other_section c t not_s not_colon =
    elim (Bool-cases (ends_with (codes ":") (c ∷ t) && not (has_char b' ' (c ∷ t)))) [
      | inl e ↦ rw e (rw not_colon (ground (arith, not_s)))
      | inr e ↦ rw e refl
    ]

other_start :
    (p : ℕ) (ps t : Text)
    → (p == b's') ≡ false
    → (p == b':') ≡ false
    → starts_with (p ∷ ps) t ≡ true
    → is_sessions (section_at t) ≡ false
unfolding starts_with
other_start p ps [] not_s not_colon h = absurd (cc)
other_start p ps (c ∷ t) not_s not_colon h =
    let same : p ≡ c = ground (arith, h) in
    other_section c t (rw (sym same) not_s) (rw (sym same) not_colon)

-- There is a result, and it agrees.
abbrev pub Agrees : StatScan → Option Extended → Type 0
Agrees s none = true ≡ false
Agrees s (some x) = Agree s x

radius_started-Agrees :
    (stripped : Text) (s : StatScan) (x : Extended)
    → x.stat ≡ s.stat
    → is_sessions s.section ≡ false
    → has_char b')' stripped ≡ true
    → Agrees s (radius_started x (parse_radius_header stripped))
unfolding parse_radius_header
radius_started-Agrees stripped s x same outside closed =
    rw closed (record { same_stat = same; same_section = sym outside })

top-Agrees :
    (stripped : Text) (s : StatScan) (x : Extended)
    → x.stat ≡ s.stat
    → (starts_with (codes "radius(") stripped && not (has_char b')' stripped)) ≡ false
    → Agrees
        (record { stat = top_stat stripped s.stat; section = section_at stripped })
        (top_line stripped x)
unfolding top_line top_stat
top-Agrees stripped s x same closed = elim (Bool-cases (starts_with (codes "uptime:") stripped)) [
  | inl e ↦ rw e (record {
    same_stat = ap (with_uptime (after_colon stripped)) same;
    same_section = sym (other_start _ _ stripped refl refl e);
  })
  | inr not_uptime ↦ elim (Bool-cases (starts_with (codes "cpu:") stripped)) [
    | inl e ↦ rw not_uptime (
        rw e (record {
          same_stat = ap (with_cpu (strip_end b'%' (after_colon stripped))) same;
          same_section = sym (other_start _ _ stripped refl refl e);
        }))
    | inr not_cpu ↦ elim (Bool-cases (starts_with (codes "mem(rss/virt):") stripped)) [
      | inl e ↦ rw not_uptime (
          rw not_cpu (
            rw e (record {
              same_stat = same;
              same_section = sym (other_start _ _ stripped refl refl e);
            })))
      | inr not_mem ↦ elim (Bool-cases (starts_with (codes "radius(") stripped)) [
        | inl e ↦
            let there : has_char b')' stripped ≡ true = ground (arith, rw e at closed) in
            rw not_uptime (
              rw not_cpu (
                rw not_mem (
                  rw e (
                    radius_started-Agrees stripped _ x same (other_start _ _ stripped refl refl e)
                      there))))
        | inr not_radius ↦ rw not_uptime (
            rw not_cpu
              (rw not_mem (rw not_radius (record { same_stat = same; same_section = refl }))))
      ]
    ]
  ]
]

-- A section that is the sessions is no other.
not_core : (section : Option Text) → is_sessions section ≡ true → in_section "core" section ≡ false
not_core none h = refl
not_core (some name) h = ground (arith, text_beq_iff name (codes "sessions"))

inner_line-keeps :
    (key v : Text) (x : Extended)
    → is_sessions x.section ≡ false
    → ((inner_line key v x).stat ≡ x.stat) × ((inner_line key v x).section ≡ x.section)
unfolding inner_line
inner_line-keeps key v x e = elim (Bool-cases (in_section "core" x.section)) [
  | inl a ↦ rw a (refl, refl)
  | inr a ↦ elim (Bool-cases (in_section "pppoe" x.section)) [
    | inl b ↦ rw a (rw e (rw b (refl, refl)))
    | inr b ↦ elim (Bool-cases (in_section "radius" x.section)) [
      | inl c ↦ rw a (rw e (rw b (rw c (refl, refl))))
      | inr c ↦ rw a (rw e (rw b (rw c (refl, refl))))
    ]
  ]
]

inner-Agree :
    (stripped : Text) (s : StatScan) (x : Extended)
    → Agree s x
    → has_char b':' stripped ≡ true
    → Agree
        (record { stat = inner_stat s.section stripped s.stat; section = s.section })
        (inner_line (strip (cut b':' stripped).0) (strip (cut b':' stripped).1) x)
unfolding inner_line inner_stat
inner-Agree stripped s x h colon = elim (Bool-cases (is_sessions x.section)) [
  | inl e ↦
      let inside : is_sessions s.section ≡ true = sym h.same_section ∙ e in
      rw (not_core x.section e) (
        rw e (
          rw inside (
            rw colon (record {
              same_stat =
                  ap
                    (λ t.
                      with_sessions
                        (set_session (strip (cut b':' stripped).0) (strip (cut b':' stripped).1)
                          t.sessions)
                        t)
                    h.same_stat;
              same_section = rw inside e;
            }))))
  | inr e ↦
      let outside : is_sessions s.section ≡ false = sym h.same_section ∙ e in
      let kept = inner_line-keeps (strip (cut b':' stripped).0) (strip (cut b':' stripped).1) x e in
      rw outside (record {
        same_stat = kept.0 ∙ h.same_stat;
        same_section = ap is_sessions kept.1 ∙ h.same_section;
      })
]

no_colon :
    (section : Option Text) (stripped : Text) (s : Stat)
    → has_char b':' stripped ≡ false
    → inner_stat section stripped s ≡ s
unfolding inner_stat
no_colon section stripped s h = elim (Bool-cases (is_sessions section)) [
  | inl e ↦ rw e (rw h refl)
  | inr e ↦ rw e refl
]

or_false : (a b : Bool) → (a || b) ≡ false → (a ≡ false) × (b ≡ false)
or_false true b h = absurd (cc)
or_false false b h = (refl, h)

and_true : (a b c : Bool) → (a && b && c) ≡ true → (a ≡ true) × (b ≡ true) × (c ≡ true)
and_true a b c h = (ground (arith, h), ground (arith, h), ground (arith, h))

-- What begins a RADIUS block begins nothing else.
radius_start :
    (t : Text)
    → starts_with (codes "radius(") t ≡ true
    → ((t == []) ≡ false)
      × (starts_with (codes "uptime:") t ≡ false)
      × (starts_with (codes "cpu:") t ≡ false)
      × (starts_with (codes "mem(rss/virt):") t ≡ false)
unfolding starts_with
radius_start [] h = absurd (cc)
radius_start (c ∷ t) h = (refl, ground (arith, h), ground (arith, h), ground (arith, h))

extended_line-Agrees :
    (raw : Text) (s : StatScan) (x : Extended)
    → Agree s x
    → is_open_radius raw ≡ false
    → Agrees (stat_line raw s) (extended_line raw x)
unfolding extended_line stat_line
extended_line-Agrees raw s x h closed = elim (Bool-cases (strip raw == [])) [
  | inl e ↦ rw e h
  | inr e ↦ elim (Bool-cases (starts_line raw)) [
    | inl top ↦ rw e (
        rw top
          (top-Agrees (strip raw) s (flush x) (unfold flush in h.same_stat) (rw top at closed)))
    | inr inner ↦ elim (Bool-cases (has_char b':' (strip raw))) [
      | inl colon ↦ rw e (rw inner (rw colon (inner-Agree (strip raw) s x h colon)))
      | inr none_there ↦ rw e (
          rw inner (
            rw none_there (record {
              same_stat = h.same_stat ∙ sym (no_colon s.section (strip raw) s.stat none_there);
              same_section = h.same_section;
            })))
    ]
  ]
]

open_radius-none :
    (raw : Text) (x : Extended) → is_open_radius raw ≡ true → extended_line raw x ≡ none
unfolding extended_line top_line parse_radius_header
open_radius-none raw x h =
    let parts = and_true (starts_line raw) _ _ h in
    let start = radius_start (strip raw) parts.1 in
    let open_end : has_char b')' (strip raw) ≡ false = ground (arith, parts.2) in
    rw start.0 (rw parts.0 (rw start.1 (rw start.2 (rw start.3 (rw parts.1 (rw open_end refl))))))

extended_lines-none :
    (lines : List Text) (x : Extended)
    → any is_open_radius lines ≡ true
    → extended_lines lines x ≡ none
unfolding extended_lines
extended_lines-none [] x h = absurd (cc)
extended_lines-none (raw ∷ lines) x h = elim (Bool-cases (is_open_radius raw)) [
  | inl e ↦ rw (open_radius-none raw x e) refl
  | inr e ↦
      let rest : any is_open_radius lines ≡ true = rw e at h in
      elim (Option-cases (extended_line raw x)) [
        | inl missing ↦ rw missing refl
        | inr (y, made) ↦ rw made (extended_lines-none lines y rest)
      ]
]

extended_lines-Agrees :
    (lines : List Text) (s : StatScan) (x : Extended)
    → Agree s x
    → any is_open_radius lines ≡ false
    → Agrees (stat_lines lines s) (extended_lines lines x)
unfolding extended_lines stat_lines
extended_lines-Agrees [] s x h closed =
    unfold flush in record { same_stat = h.same_stat; same_section = h.same_section }
extended_lines-Agrees (raw ∷ lines) s x h closed =
    let first = (or_false (is_open_radius raw) (any is_open_radius lines) closed).0 in
    let rest = (or_false (is_open_radius raw) (any is_open_radius lines) closed).1 in
    elim (Option-cases (extended_line raw x)) [
      | inl missing ↦ absurd (cc (rw missing at (extended_line-Agrees raw s x h first)))
      | inr (y, made) ↦ rw made (
          extended_lines-Agrees lines (stat_line raw s) y
            (rw made at (extended_line-Agrees raw s x h first)) rest)
    ]

-- The statistics that both readers give.
abbrev pub SameStat : Stat → Option Extended → Type 0
SameStat s none = true ≡ false
SameStat s (some x) = x.stat ≡ s

Agrees-SameStat : (s : StatScan) (o : Option Extended) → Agrees s o → SameStat s.stat o
Agrees-SameStat s none h = h
Agrees-SameStat s (some x) h = h.same_stat

-- The reader of all sections gives the same uptime, load and session counts as the short one on every
-- output in which each RADIUS header has its closing bracket; on every other output it raises, where
-- the short one answers.
pub parse_stat_extended-SameStat :
    (text : Text)
    → (any is_open_radius (lines_of text) ≡ false
        → SameStat (parse_stat text) (parse_stat_extended text))
      × (any is_open_radius (lines_of text) ≡ true → parse_stat_extended text ≡ none)
unfolding parse_stat parse_stat_extended
parse_stat_extended-SameStat text = (
  λ closed. Agrees-SameStat _ _ (
      extended_lines-Agrees (lines_of text) (record { stat = no_stat; section = none }) no_extended
        (record { same_stat = refl; same_section = refl }) closed),
  λ open_one. extended_lines-none (lines_of text) no_extended open_one,
)
