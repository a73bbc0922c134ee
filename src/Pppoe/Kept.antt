-- ===== src/Pppoe/Kept.antt =====
-- What the rebuilding of the lines keeps.
use dawos_agent.Prelude.{
  Text, text_eq, nat_eq, Bool, true, false, ◌||◌, ◌&&◌, not, List, [], ◌∷◌, ◌++◌, ◌≡◌, refl, sym,
  ap, ◌∙◌, if◌then◌else◌, Bool-cases, inl, inr, All,
}
use mathlib.Core.List.{append-nil}
use dawos_agent.Prelude.Texts.{strip, is_space}
use dawos_agent.Prelude.Texts.Strip.{strip-first}
use dawos_agent.Prelude.Texts.Lines.{IsLine}
use dawos_agent.Sections.{is_header, is_some}
use dawos_agent.Sections.Headers.{any_header}
use dawos_agent.Pppoe.{
  PppoeInterface, in_pppoe_section, iface_value, iface_line, iface_lines, rebuild_lines,
}
use dawos_agent.Pppoe.Rebuilt.{ReadsBack, rebuild-header, rebuild-iface, rebuild-other, flag}

-- The line of an interface opens no section, whatever its name is.
iface_line-no_header : (iface : PppoeInterface) → is_header (strip (iface_line iface)) ≡ false
unfolding iface_line
iface_line-no_header iface =
    ap is_header (strip-first b'i' _ (unfold is_space in refl)) ∙ unfold is_header in refl

flushed_headers :
    (ifaces : List PppoeInterface) (out : List Text)
    → any_header (iface_lines ifaces ++ out) ≡ any_header out
flushed_headers [] out = refl
flushed_headers (iface ∷ ifaces) out = rw (iface_line-no_header iface) (flushed_headers ifaces out)

flushed_lines :
    (ifaces : List PppoeInterface) (out : List Text)
    → All ReadsBack ifaces
    → All IsLine out
    → All IsLine (iface_lines ifaces ++ out)
flushed_lines [] out h lines = lines
flushed_lines (iface ∷ ifaces) out (h, hs) lines = (h.one_line, flushed_lines ifaces out hs lines)

-- The headers stay, and where the interfaces are read back, every line is one.
pub record Kept (ifaces : List PppoeInterface) (lines out : List Text) : Type 0 where
  pub headers : any_header out ≡ any_header lines
  pub one_line : All ReadsBack ifaces → All IsLine lines → All IsLine out

flushed-Kept :
    (ifaces : List PppoeInterface) (now : Bool) {lines out : List Text}
    → Kept ifaces lines out
    → Kept ifaces lines (if now then iface_lines ifaces ++ out else out)
flushed-Kept ifaces false k = k
flushed-Kept ifaces true {lines} {out} k = record {
  headers = flushed_headers ifaces out ∙ k.headers;
  one_line = λ h l. flushed_lines ifaces out h (k.one_line h l);
}

same-Kept :
    {ifaces : List PppoeInterface} (raw : Text) {lines out : List Text}
    → Kept ifaces lines out
    → Kept ifaces (raw ∷ lines) (raw ∷ out)
same-Kept raw k = record {
  headers = ap (λ b. is_header (strip raw) || b) k.headers;
  one_line = λ h l. (l.0, k.one_line h l.1);
}

gone-Kept :
    {ifaces : List PppoeInterface} (raw : Text) {lines out : List Text}
    → is_header (strip raw) ≡ false
    → Kept ifaces lines out
    → Kept ifaces (raw ∷ lines) out
gone-Kept raw plain k = record {
  headers = k.headers ∙ rw plain refl;
  one_line = λ h l. k.one_line h l.1;
}

end-Kept :
    (ifaces : List PppoeInterface) (inside done : Bool)
    → Kept ifaces [] (rebuild_lines ifaces [] inside done)
unfolding rebuild_lines
end-Kept ifaces inside done = elim (Bool-cases (inside && not done)) [
  | inl now ↦ rw now (record {
    headers = ap any_header (sym (append-nil (iface_lines ifaces))) ∙ flushed_headers ifaces [];
    one_line = λ h l. rw⁻¹ (append-nil (iface_lines ifaces)) (flushed_lines ifaces [] h tt);
  })
  | inr never ↦ rw never (record { headers = refl; one_line = λ h l. l })
]

iface-Kept :
    (ifaces : List PppoeInterface) (raw : Text) (lines : List Text) (inside done : Bool)
    → is_header (strip raw) ≡ false
    → (inside && is_some (iface_value (strip raw))) ≡ true
    → Kept ifaces lines (rebuild_lines ifaces lines true true)
    → Kept ifaces (raw ∷ lines) (rebuild_lines ifaces (raw ∷ lines) inside done)
iface-Kept ifaces raw lines false done plain found k = absurd (cc)
iface-Kept ifaces raw lines true true plain found k =
    rw (rebuild-iface ifaces raw lines true plain found) (gone-Kept raw plain k)
iface-Kept ifaces raw lines true false plain found k =
    rw (rebuild-iface ifaces raw lines false plain found)
      (gone-Kept raw plain (flushed-Kept ifaces true k))

pub rebuild_lines-Kept :
    (ifaces : List PppoeInterface) (lines : List Text) (inside done : Bool)
    → Kept ifaces lines (rebuild_lines ifaces lines inside done)
rebuild_lines-Kept ifaces [] inside done = end-Kept ifaces inside done
rebuild_lines-Kept ifaces (raw ∷ lines) inside done = elim (Bool-cases (is_header (strip raw))) [
  | inl opened ↦ rw (rebuild-header ifaces raw lines inside done opened) (
      flushed-Kept ifaces (inside && not done) (
        same-Kept raw (
          rebuild_lines-Kept ifaces lines (in_pppoe_section (strip raw))
            (flag ifaces raw lines inside done))))
  | inr plain ↦ elim (Bool-cases (inside && is_some (iface_value (strip raw)))) [
    | inl found ↦
        iface-Kept ifaces raw lines inside done plain found
          (rebuild_lines-Kept ifaces lines true true)
    | inr other ↦
        rw (rebuild-other ifaces raw lines inside done plain other)
          (same-Kept raw (rebuild_lines-Kept ifaces lines inside done))
  ]
]
