-- ===== src/Tests/Answers.antt =====
-- What the backends make of an answer, at one that is read.
use entropyk.Base.{ℕ, String, [], ◌∷◌, ◌≡◌, ◌↔◌}
use entropyk.Go.{ok}
use entropyk.Safeguard.Http.{get_json}
use entropyk.Safeguard.Prometheus.{Decoder, read_instant}
use entropyk.Safeguard.Fetching.{Fetches, get_json-Fetches}
use entropyk.Safeguard.Instant.{IsInstant, read_instant-IsInstant}
use entropyk.Tests.Fixtures.{std, world}
use entropyk.Tests.Safeguards.{internet, json, url}

get_json-Fetches_example : Fetches internet url world (get_json internet url world)
get_json-Fetches_example = get_json-Fetches internet url world

-- Every body is a success with the one value 9.
abbrev nine : Decoder ℕ
nine = record json {
  Raw = String;
  response = λ body. ok (record {
    status = "success";
    payload = record {
      result_type = "vector";
      result = record { value = "5" ∷ "9" ∷ []; values = [] } ∷ [];
    };
    error_type = "";
    error = "";
  });
}

read_instant-IsInstant_example :
    (read_instant std nine (1 ∷ []) ≡ ok 9) ↔ IsInstant std nine (1 ∷ []) 9
read_instant-IsInstant_example = read_instant-IsInstant std nine (1 ∷ []) 9
