-- ===== src/Programs/Tests.antt =====
-- The theorems on the programs, applied to command lines.
use text.Mathlib.Text.{◌==◌}
use tradingmarketsimulator.Prelude.{ℕ, ◌+◌, ◌≡◌, refl, true, false, [], ◌∷◌}
use tradingmarketsimulator.Programs.{System, Ending, client_main, server_main}
use tradingmarketsimulator.Programs.Status.{AtRest, client_main_lem, server_main_lem}

-- There is one configuration, the market can be reached, and nobody can listen.
abbrev system : System
system = record {
  World = ℕ;
  exists = λ path. path == "etc/config.toml";
  parse_config = λ path. true;
  connect = λ w. (true, w + 1);
  listen = λ w. (false, w + 1);
}

client_main_lem_example :
    let result = client_main system ("client" ∷ "etc/config.toml" ∷ []) 0 in
    (result.ending ≡ Ending.unjoined 0) × AtRest system result.core
client_main_lem_example = client_main_lem system ("client" ∷ "etc/config.toml" ∷ []) 0

server_main_lem_example :
    (server_main system ("server" ∷ "etc/config.toml" ∷ []) 0).ending ≡ Ending.returned 0
server_main_lem_example = server_main_lem system ("server" ∷ "etc/config.toml" ∷ []) 0

no_arguments : (server_main system ("server" ∷ []) 0).ending ≡ Ending.returned 1
unfolding server_main
no_arguments = refl
