-- ===== src/Programs.antt =====
-- src/mms/client/main.cc and src/mms/server/main.cc: from the command line to the exit status.
pub mod Status
pub mod Tests
use Prim.Native.String.{String}
use tradingmarketsimulator.Prelude.{
  ℕ, Bool, true, false, Option, none, some, List, [], ◌∷◌, if◌then◌else◌, length, ltb, get_elem?,
  ◌&&◌,
}
use tradingmarketsimulator.Client.Lifecycle.{Core, Exit, construct, start_client, stop_client}
use tradingmarketsimulator.Server.Start.{Started, start_server}

-- What the programs take from outside: `std::filesystem::exists`, `parse_config` of `fiah::Config`,
-- and the attempts to connect and to listen.
pub record System : Type 1 where
  pub World : Type 0
  pub exists : String → Bool
  pub parse_config : String → Bool
  pub connect : World → Bool × World
  pub listen : World → Bool × World

-- What `main` prints itself, apart from the name of the standard library
pub data Message : Type 0 where
  usage : Message
  no_path : String → Message
  no_config : Message

-- `main` returns and has destroyed its core; or it has its status, but the core's feed is destroyed while
-- the threads that use it are not joined, so that how the process ends is left open; or the process is
-- terminated; or `main` never gets past `start_server`.
pub data Ending : Type 0 where
  returned : ℕ → Ending
  unjoined : ℕ → Ending
  terminated : Ending
  serving : Ending

-- How `main` ended, what it printed, and the core as the body of its destructor left it, if there was one
pub record Result (S : System) : Type 0 where
  pub ending : Ending
  pub printed : List Message
  pub core : Option (Core S.World)

module _ (S : System) where
  -- `print_help`, and the checks of the path and of the configuration before `rest`
  abbrev pub with_config : Option String → Result S → Result S
  with_config none rest = record {
    ending = Ending.returned 1;
    printed = Message.usage ∷ [];
    core = none;
  }
  with_config (some path) rest =
      if S.exists path
      then (if S.parse_config path
          then rest
          else record { ending = Ending.returned 1; printed = Message.no_config ∷ []; core = none })
      else record { ending = Ending.returned 1; printed = Message.no_path path ∷ []; core = none }

  -- The destructor of `Core`, when `main` has its status: its body, and then the members from the last to
  -- the first, the feed before the threads, whose destructors join them.
  unfoldable pub destroy : ℕ → Core S.World → Result S
  destroy rc c = record {
    ending = if c.threads && c.market_feed then Ending.unjoined rc else Ending.returned rc;
    printed = [];
    core = some (stop_client S.connect S.listen c);
  }

  -- A result of `start_client`, which `main` returns
  abbrev pub conclude_client : Exit × Core S.World → Result S
  conclude_client (result, c) = elim result [
    | Exit.status rc ↦ if rc then destroy 1 c else destroy 0 c
    | Exit.terminated ↦ record { ending = Ending.terminated; printed = []; core = none }
  ]

  unfoldable pub client_main : List String → S.World → Result S
  client_main argv w =
      let c = construct S.connect S.listen w in
      with_config (get_elem? argv 1) (conclude_client (start_client S.connect S.listen c))

  -- `start_server`, whose result `main` passes over
  abbrev pub conclude_server : Started × Core S.World → Result S
  conclude_server (result, c) = elim result [
    | Started.serving ↦ record { ending = Ending.serving; printed = []; core = some c }
    | Started.ended e ↦ elim e [
      | Exit.status _ ↦ destroy 0 c
      | Exit.terminated ↦ record { ending = Ending.terminated; printed = []; core = none }
    ]
  ]

  unfoldable pub server_main : List String → S.World → Result S
  server_main argv w =
      let c = construct S.connect S.listen w in
      with_config (get_elem? argv 1) (conclude_server (start_server S.connect S.listen c))
