-- ===== src/Core/Config/Tests.antt =====
-- packages/@twokeys/core/src/config.ts on a sample client config.
use keys.Prelude.{
  some, [], ◌∷◌, String, ◌≡◌, refl, ◌==◌, property, without, Result, ok, ◌>>◌, if◌then◌else◌,
}
use keys.Core.Config.{Thrown, value, write_method, ClientConfig, load_client_config, write}
use keys.Core.Config.Laws.{load-write}

abbrev client : ClientConfig String
client = ("id", value "7") ∷ ("write", write_method) ∷ ("name", value "pi") ∷ []

abbrev to_text : ClientConfig String → String
to_text c = "id: 7"

abbrev from_text : String → Result Thrown (ClientConfig String)
from_text t = ok (("id", value "7") ∷ ("name", value "pi") ∷ [])

abbrev takes : String → Result Thrown (Unit {0})
takes file = ok tt

reads_back : from_text (to_text (without "write" client)) ≡ ok (without "write" client)
unfolding without
reads_back = refl

load-write_example :
    (loaded : ClientConfig String) × (((write from_text to_text takes "client.yml" client
          >> load_client_config from_text to_text "client.yml")
        []).0
      ≡ ok loaded)
    × ((k : String)
        → property k loaded ≡ (if "write" == k then some write_method else property k client))
load-write_example = load-write from_text to_text takes "client.yml" client [] refl reads_back
