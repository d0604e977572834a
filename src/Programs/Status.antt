-- ===== src/Programs/Status.antt =====
-- What the exit statuses of the programs say.
use Prim.Native.String.{String}
use tradingmarketsimulator.Prelude.{
  ◌≡◌, refl, Bool, true, false, Option, none, some, List, ◌&&◌, if◌then◌else◌, get_elem?,
  Bool-cases, inl, inr, ◌⊎◌,
}
use tradingmarketsimulator.Client.Lifecycle.{Core, construct, start_client, stop_client}
use tradingmarketsimulator.Client.Lifecycle.Flags.{construct-IsConsistent}
use tradingmarketsimulator.Client.Lifecycle.Start.{start_client_lem}
use tradingmarketsimulator.Server.Start.{start_server, start_server_lem}
use tradingmarketsimulator.Programs.{
  System, Ending, Result, with_config, conclude_client, conclude_server, client_main, server_main,
  destroy,
}

module _ (S : System) where
  -- There is a path on the command line, and at it a configuration that can be parsed.
  abbrev pub configured : Option String → Bool
  configured none = false
  configured (some path) = S.exists path && S.parse_config path

  with_config_lem :
      (path : Option String) (rest : Result S)
      → (configured path ≡ true × (with_config S path rest ≡ rest))
        ⊎ (configured path ≡ false
            × ((with_config S path rest).ending ≡ Ending.returned 1)
            × ((with_config S path rest).core ≡ none))
  with_config_lem none rest = inr (refl, refl, refl)
  with_config_lem (some path) rest = elim (Bool-cases (S.exists path)) [
    | inr missing ↦ rw missing (inr (refl, refl, refl))
    | inl there ↦ elim (Bool-cases (S.parse_config path)) [
      | inl parsed ↦ rw (there, parsed) (inl (refl, refl))
      | inr broken ↦ rw (there, broken) (inr (refl, refl, refl))
    ]
  ]

  -- The core that the program leaves, if it made one, does not run the client.
  abbrev pub AtRest : Option (Core S.World) → Type 0
  AtRest none = Unit
  AtRest (some c) = c.client_running ≡ false

  -- If there is a path on the command line, the configuration at it can be parsed, and the server can be
  -- reached, the client program comes to the status 0, but then destroys the feed while the threads that use it
  -- are not joined. Otherwise it ends with 1. The flag of the client is cleared then.
  pub client_main_lem :
      (argv : List String) (w : S.World)
      → let result = client_main S argv w in
        (result.ending ≡ (
          if configured (get_elem? argv 1) && (S.connect w).0
          then Ending.unjoined 0
          else Ending.returned 1))
        × AtRest result.core
  unfolding client_main construct destroy stop_client
  client_main_lem argv w =
      let c : Core S.World = construct S.connect S.listen w in
      let v = construct-IsConsistent S.connect S.listen w in
      let started = start_client_lem S.connect S.listen c v in
      elim (with_config_lem (get_elem? argv 1)
        (conclude_client S (start_client S.connect S.listen c))) [
          | inr (no_config, one, nothing) ↦ rw (no_config, one, nothing) (refl, tt)
          | inl (config, rest) ↦ elim (Bool-cases (S.connect w).0) [
            | inl up ↦ rw (rest, config, up, started.0 refl up) (refl, refl)
            | inr down ↦ rw (rest, config, down, started.1 refl down) (refl, refl)
          ]
        ]

  -- The server program ends with 1 if there is no path on the command line or no configuration that can
  -- be parsed at it. Otherwise it ends only if the server could not be started, and then with 0.
  pub server_main_lem :
      (argv : List String) (w : S.World)
      → (server_main S argv w).ending ≡ (
          if configured (get_elem? argv 1)
          then (if (S.listen w).0 then Ending.serving else Ending.returned 0)
          else Ending.returned 1)
  unfolding server_main construct destroy stop_client
  server_main_lem argv w =
      let c : Core S.World = construct S.connect S.listen w in
      let v = construct-IsConsistent S.connect S.listen w in
      let started = start_server_lem S.connect S.listen c v in
      elim (with_config_lem (get_elem? argv 1)
        (conclude_server S (start_server S.connect S.listen c))) [
          | inr (no_config, one, nothing) ↦ rw (no_config, one) refl
          | inl (config, rest) ↦ elim (Bool-cases (S.listen w).0) [
            | inl up ↦ rw (rest, config, up, started.1 refl up) refl
            | inr down ↦ rw (rest, config, down, started.2 refl down) refl
          ]
        ]
