-- ===== src/Mailbox/Refinement.antt =====
-- crates/network/src/mailbox.rs: the relay over its hash map, against a queue for each recipient.
use mathlib.Core.Path.{fun_ext}
use shadowgram.Base.{ℕ, ◌≡◌, refl, ap, ◌∙◌, String, List, [], ◌∷◌, retain, Bytes, bytes_Eq}
use shadowgram.Mailbox.{
  RelayMailbox, is_live, Call, stores, retrieves, acknowledges, sweeps, step, run,
}
use shadowgram.Mailbox.View.{
  Queues, view, with_queue, spec_store, spec_acknowledge, view-store, view-retrieve,
  view-acknowledge, view-sweep,
}
use shadowgram.Mailbox.Invariant.{IsValid, step-IsValid}

module _ (blake3 : String → Bytes) where
  unfoldable pub spec_step : Queues → ℕ × Call → Queues
  unfolding spec_store spec_acknowledge
  spec_step q (now, stores env) = (spec_store q env).0
  spec_step q (now, retrieves fp) = with_queue q (blake3 fp) []
  spec_step q (now, acknowledges fp id) = (spec_acknowledge q (blake3 fp) id).0
  spec_step q (now, sweeps) = λ k. retain (is_live now) (q k)

  unfoldable pub spec_run : Queues → List (ℕ × Call) → Queues
  spec_run q [] = q
  spec_run q (c ∷ cs) = spec_run (spec_step q c) cs

  pub view-step :
      (m : RelayMailbox) (c : ℕ × Call) → IsValid m → view (step blake3 m c) ≡ spec_step (view m) c
  unfolding step spec_step
  view-step m (now, stores env) v = fun_ext (view-store m env)
  view-step m (now, retrieves fp) v = fun_ext (view-retrieve blake3 m fp now)
  view-step m (now, acknowledges fp id) v = fun_ext (view-acknowledge blake3 m fp id)
  view-step m (now, sweeps) v = fun_ext (λ j. view-sweep now m j v.keys)

  -- On a valid mailbox, any calls leave the queues that they leave in the specification.
  pub view-run :
      (m : RelayMailbox) (cs : List (ℕ × Call))
      → IsValid m
      → view (run blake3 m cs) ≡ spec_run (view m) cs
  unfolding run spec_run
  view-run m [] v = refl
  view-run m (c ∷ cs) v =
      view-run (step blake3 m c) cs (step-IsValid blake3 m c v)
      ∙ ap (λ q. spec_run q cs) (view-step m c v)
