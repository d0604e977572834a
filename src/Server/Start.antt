-- ===== src/Server/Start.antt =====
-- How `work_server` and `start_server` begin, from the flags of the core.
use tradingmarketsimulator.Prelude.{◌≡◌, refl, Bool, true, false, if◌then◌else◌, if_false, ap, ◌∙◌}
use tradingmarketsimulator.Client.{CoreError}
use tradingmarketsimulator.Client.Lifecycle.{
  Core, Outcome, Exit, reported, initialize_server, init_server,
}
use tradingmarketsimulator.Client.Lifecycle.Flags.{IsConsistent}

-- `work_server` is in its loop, which has no end, or was left before it.
pub data Serving : Type 0 where
  entered : Serving
  left : Outcome → Serving

-- `start_server` is in that loop, or has ended.
pub data Started : Type 0 where
  serving : Started
  ended : Exit → Started

module _ {World : Type 0} (connect listen : World → Bool × World) where
  -- The invariant check of `work_server`
  abbrev pub enter_loop : Core World → Serving × Core World
  enter_loop c =
      if c.tcp_server
      then (Serving.entered, c)
      else (Serving.left (Outcome.thrown CoreError.invalid_state), c)

  unfoldable pub work_server : Core World → Serving × Core World
  work_server c =
      let (result, c') = initialize_server connect listen c in
      if c.server_started then enter_loop c else elim result [
        | Outcome.returned ↦ enter_loop c'
        | Outcome.unexpected e ↦ (Serving.left (Outcome.unexpected e), c')
        | Outcome.thrown e ↦ (Serving.left (Outcome.thrown e), c')
      ]

  -- What `start_server` makes of `work_server`: it passes over an error and catches what is thrown.
  abbrev pub run_server : Core World → Started × Core World
  run_server c =
      let (result, c') = work_server c in
      elim result [
        | Serving.entered ↦ (Started.serving, c')
        | Serving.left o ↦ elim o [
          | Outcome.returned ↦ (Started.ended (Exit.status false), c')
          | Outcome.unexpected _ ↦ (Started.ended (Exit.status false), c')
          | Outcome.thrown _ ↦ (Started.ended (Exit.status true), c')
        ]
      ]

  unfoldable pub start_server : Core World → Started × Core World
  start_server c =
      let (result, c') = init_server connect listen c in
      if c.server_started then run_server c else elim result [
        | Exit.status failed ↦
            if failed then (Started.ended (Exit.status true), c') else run_server c'
        | Exit.terminated ↦ (Started.ended Exit.terminated, c')
      ]

  initialize_server_up :
      (c : Core World)
      → IsConsistent connect listen c
      → c.server_started ≡ false
      → (listen c.world).0 ≡ true
      → initialize_server connect listen c ≡ (
        Outcome.returned,
        record c { tcp_server = true; server_started = true; world = (listen c.world).1 },
      )
  unfolding initialize_server
  initialize_server_up c v off up = if_false c.server_started _ _ off ∙ rw (v.config, up) refl

  initialize_server_down :
      (c : Core World)
      → IsConsistent connect listen c
      → c.server_started ≡ false
      → (listen c.world).0 ≡ false
      → initialize_server connect listen c ≡ (
        Outcome.unexpected CoreError.init_server_fail,
        record c { tcp_server = true; world = (listen c.world).1 },
      )
  unfolding initialize_server
  initialize_server_down c v off down = if_false c.server_started _ _ off ∙ rw (v.config, down) refl

  -- `start_server` after `initialize_server`
  abbrev after_init : Outcome × Core World → Started × Core World
  after_init (result, c) = elim (reported connect listen result) [
    | Exit.status failed ↦ if failed then (Started.ended (Exit.status true), c) else run_server c
    | Exit.terminated ↦ (Started.ended Exit.terminated, c)
  ]

  -- From consistent flags, `start_server` goes into the loop that accepts clients if the server is
  -- started or can listen, with the flags of a started server; if it cannot listen it fails, and has a
  -- server that is not started. So it never ends with success.
  pub start_server_lem :
      (c : Core World)
      → IsConsistent connect listen c
      → (c.server_started ≡ true → start_server c ≡ (Started.serving, c))
        × (c.server_started ≡ false
            → (listen c.world).0 ≡ true
            → start_server c ≡ (
              Started.serving,
              record c { tcp_server = true; server_started = true; world = (listen c.world).1 },
            ))
        × (c.server_started ≡ false
            → (listen c.world).0 ≡ false
            → start_server c ≡ (
              Started.ended (Exit.status true),
              record c { tcp_server = true; world = (listen c.world).1 },
            ))
  unfolding start_server work_server init_server
  start_server_lem c v = (
    λ on. rw (on, v.served on) refl,
    λ off up. if_false c.server_started _ _ off ∙ ap after_init (initialize_server_up c v off up),
    λ off down.
        if_false c.server_started _ _ off ∙ ap after_init (initialize_server_down c v off down),
  )
