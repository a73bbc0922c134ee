-- ===== src/Bulk/Shaper.antt =====
-- What is asked of the daemon to change the rate of a subscriber.
use dawos_agent.Prelude.{
  Text, codes, nat_eq, ◌≡◌, refl, arith, false, some, none, [], ◌∷◌, ◌++◌, ok, err, Result,
}
use dawos_agent.Prelude.Exec.{continue, pure}
use dawos_agent.Prelude.Texts.{has_char}
use dawos_agent.Prelude.Texts.Laws.{has_char-append}
use dawos_agent.Bulk.{
  Daemon, match_username_ifname, shaper_change, ifname_in, ifname_of, change_ratelimit, change_on,
  no_session, shaper_value, before_slash, after_slash,
}

before_slash-append :
    (up down : Text) → has_char b'/' up ≡ false → before_slash (up ++ (b'/' ∷ down)) ≡ up
unfolding before_slash
before_slash-append [] down h = refl
before_slash-append (c ∷ up) down h = ground (arith, before_slash-append up down)

after_slash-append :
    (up down : Text) → has_char b'/' up ≡ false → after_slash (up ++ (b'/' ∷ down)) ≡ down
unfolding after_slash
after_slash-append [] down h = refl
after_slash-append (c ∷ up) down h = ground (arith, after_slash-append up down)

shaper_value-swaps :
    (up down : Text)
    → has_char b'/' up ≡ false
    → shaper_value (up ++ (b'/' ∷ down)) ≡ down ++ (b'/' ∷ up)
unfolding shaper_value
shaper_value-swaps up down h =
    rw (before_slash-append up down h)
      (rw (after_slash-append up down h) (ground (arith, has_char-append b'/' up (b'/' ∷ down))))

continue-pure :
    {W E A B : Type 0} (r : Result E A) (f : A → B) (w : W) → (continue r (λ a. pure (f a)) w).1 ≡ w
continue-pure (ok a) f w = refl
continue-pure (err e) f w = refl

module _ (d : Daemon) (username : Text) (up down : Text) (w : d.World) where
  -- Where the daemon knows an interface of the user, a rate `up/down` is sent to it as `down/up`;
  -- where it knows none, the request fails and nothing more is sent.
  pub change_ratelimit_lem :
      (output : Text)
      → has_char b'/' up ≡ false
      → (d.run_cmd (match_username_ifname username) w).0 ≡ ok output
      → ((ifname : Text)
          → ifname_in output ≡ some ifname
          → (change_ratelimit d username (up ++ (b'/' ∷ down)) w).1
            ≡ (d.run_cmd
                (shaper_change ifname (down ++ (b'/' ∷ up)))
                (d.run_cmd (match_username_ifname username) w).1).1)
        × (ifname_in output ≡ none
            → change_ratelimit d username (up ++ (b'/' ∷ down)) w ≡ (
              err (codes "No live session for " ++ username),
              (d.run_cmd (match_username_ifname username) w).1,
            ))
  unfolding change_ratelimit ifname_of change_on no_session
  change_ratelimit_lem output plain answered = rw answered (
    λ ifname there. rw there (rw (shaper_value-swaps up down plain) (continue-pure _ _ _)),
    λ missing. rw missing refl,
  )
