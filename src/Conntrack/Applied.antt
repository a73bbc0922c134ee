-- ===== src/Conntrack/Applied.antt =====
-- What the endpoints that set timeouts leave in the kernel.
use dawos_agent.Prelude.{
  ℕ, Text, text_eq, nat_eq, Bool, true, false, none, some, List, [], ◌∷◌, ok, err, if◌then◌else◌,
  ◌≡◌, refl, ap, ◌∙◌, arith, Bool-cases, inl, inr,
}
use dawos_agent.Prelude.Dict.{Dict, get, put}
use dawos_agent.Shell.{Shell, run, Effects}
use dawos_agent.Conntrack.{
  Command, read_key, write_key, tee, lsmod, flush, runtime_error, full_key, short_keys, profiles,
  read_int, read_timeouts, get_timeouts, write_all, apply_profile, post_profile,
}

-- A write that passes sets its key; nothing else sets one.
unfoldable pub effect : Command → Dict Text ℕ → Dict Text ℕ
effect (write_key key n) d = put key n d
effect (read_key key) d = d
effect (tee content) d = d
effect lsmod d = d
effect flush d = d

-- The kernel with the items of a list written, up to the first that is refused.
module _ (sh : Shell Command) where
  open sh use {World}

  unfoldable pub written : List (Text × ℕ) → World → Dict Text ℕ → Dict Text ℕ
  written [] w d = d
  written ((key, n) ∷ items) w d =
      let rest = written items (run sh (write_key (full_key key) n) w).1 (put (full_key key) n d) in
      if (run sh (write_key (full_key key) n) w).0.passed then rest else d

  -- Whether none is refused.
  unfoldable pub all_pass : List (Text × ℕ) → World → Bool
  all_pass [] w = true
  all_pass ((key, n) ∷ items) w =
      let rest = all_pass items (run sh (write_key (full_key key) n) w).1 in
      if (run sh (write_key (full_key key) n) w).0.passed then rest else false

module _ (sh : Shell Command) (sysctl : Effects sh effect) where
  open sh use {World}

  abbrev pub view : World → Dict Text ℕ
  view = sysctl.view

  read_timeouts-keeps : (keys : List Text) (w : World) → view (read_timeouts sh keys w).1 ≡ view w
  unfolding read_timeouts read_int effect
  read_timeouts-keeps [] w = refl
  read_timeouts-keeps (key ∷ keys) w =
      read_timeouts-keeps keys (run sh (read_key (full_key key)) w).1
      ∙ sysctl.runs (read_key (full_key key)) w
      ∙ ground arith

  write_all-written :
      (items : List (Text × ℕ)) (w : World)
      → (view (write_all sh items w).1 ≡ written sh items w (view w))
        × ((write_all sh items w).0 ≡ (if all_pass sh items w then ok tt else err runtime_error))
  unfolding write_all written all_pass effect
  write_all-written [] w = (refl, refl)
  write_all-written ((key, n) ∷ items) w =
      let ran = sysctl.runs (write_key (full_key key) n) w in
      let rest = write_all-written items (run sh (write_key (full_key key) n) w).1 in
      elim (Bool-cases (run sh (write_key (full_key key) n) w).0.passed) [
        | inl e ↦ let put_it = rw e at ran in rw e (rest.0 ∙ ap (written sh items _) put_it, rest.1)
        | inr e ↦ rw e (rw e at ran, refl)
      ]

  -- Where a write that passes sets its key and a refused one nothing, a profile is written item by item and
  -- is not taken back: after `POST /profiles/apply` the kernel has
  -- the items that stand before the first one that is refused, and all of them when none is; with one
  -- refused the answer is 500, and a name that is no profile is 400 and runs nothing.
  pub post_profile_lem :
      (name : Text) (w : World)
      → ((items : List (Text × ℕ))
          → get name profiles ≡ some items
          → (view (post_profile sh name w).1 ≡ written sh items w (view w))
            × (all_pass sh items w ≡ false → (post_profile sh name w).0 ≡ err 500)
            × (all_pass sh items w ≡ true
                → (post_profile sh name w).0
                  ≡ ok (read_timeouts sh short_keys (write_all sh items w).1).0))
        × (get name profiles ≡ none → post_profile sh name w ≡ (err 400, w))
  unfolding post_profile apply_profile get_timeouts
  post_profile_lem name w = (
    λ items there.
        let done = write_all-written items w in
        rw there (elim (Bool-cases (all_pass sh items w)) [
          | inl e ↦
              let passed : (write_all sh items w).0 ≡ ok tt = done.1 ∙ rw e refl in
              rw passed (read_timeouts-keeps short_keys _ ∙ done.0, λ no. absurd (cc), λ yes. refl)
          | inr e ↦
              let failed : (write_all sh items w).0 ≡ err runtime_error = done.1 ∙ rw e refl in
              rw failed (done.0, λ no. refl, λ yes. absurd (cc))
        ]),
    λ missing. rw missing refl,
  )
