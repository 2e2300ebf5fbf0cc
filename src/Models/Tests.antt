-- ===== src/Models/Tests.antt =====
-- Rows of the models, with JSON values that are tagged by the type that they were made of.
use laas_reflab.Prelude.{
  ℕ, ◌==◌, ==_iff, zero, suc, ap, is_empty, not, ◌≡◌, refl, arith, String, Bool, true, false, ◌&&◌,
  Option, none, some, List, [], ◌∷◌, if◌then◌else◌,
}
use laas_reflab.Models.Rows.{
  uuid, varchar, boolean, json, uuids, null, ℤ, pos, RoundTrips, Row, accepts, stored,
}
use laas_reflab.Models.Inventory.{DataValue, giga_bytes, CardType, Arch, x86_64, IpNetwork}
use laas_reflab.Models.Dashboard.{
  BookingMetadata, LifeCycleState, AggregateConfiguration, HostConfig, StatusSentiment, ProvEvent,
}
use laas_reflab.Models.JsonModel.{ReadsBack, Json, Network}
use laas_reflab.Models.Inventory.Flavor.{Flavor}
use laas_reflab.Models.Inventory.HostPort.{HostPort}
use laas_reflab.Models.Dashboard.Image.{Image}
use laas_reflab.Models.Tables.{
  flavors, host_ports, images, Serde, Lawful, columns, from_row, from_row-stored_fit, IsUsize,
}
use laas_reflab.Dal.Transaction.{ok, err, Session}
use laas_reflab.Dal.Table.{insert, upsert, update, get}
use laas_reflab.Dal.Table.Effects.{Call, inserts, upserts, updates, find}
use laas_reflab.Dal.Table.Refinement.{Tabled, found}
use laas_reflab.Dal.Table.Calls.{make, make_all, make_all_refines, insert-upsert}
use laas_reflab.Models.Methods.{methods, methods-Lawful}

data Tagged : Type 0 where
  of_i64s : ℤ → Tagged
  of_data_values : DataValue → Tagged
  of_card_types : CardType → Tagged
  of_arches : Arch → Tagged
  of_texts : (List String) → Tagged
  of_macs : ℕ → Tagged
  of_ip_networks : IpNetwork → Tagged
  of_metadatas : BookingMetadata → Tagged
  of_states : LifeCycleState → Tagged
  of_configurations : AggregateConfiguration → Tagged
  of_host_configs : (List HostConfig) → Tagged
  of_host_config : HostConfig → Tagged
  of_text_maps : (List (String × String)) → Tagged
  of_sentiments : StatusSentiment → Tagged
  of_events : ProvEvent → Tagged
  empty_map : Tagged
  named : String → Tagged

-- Ids in unary.
abbrev strokes : ℕ → String
strokes zero = String.[]
strokes (suc n) = String.◌∷◌ "x" (strokes n)

abbrev one_more : Option ℕ → Option ℕ
one_more none = none
one_more (some n) = some (suc n)

abbrev strokes_of : String → Option ℕ
strokes_of String.[] = some zero
strokes_of (String.◌∷◌ c s) = one_more (strokes_of s)

strokes_of-strokes : (n : ℕ) → strokes_of (strokes n) ≡ some n
strokes_of-strokes zero = refl
strokes_of-strokes (suc n) = ap one_more (strokes_of-strokes n)

-- A type whose values are never written.
module _ {A : Type 0} where
  abbrev unwritten : Json Tagged A
  unwritten = record { print = λ a. none; parse = λ s. none; read = λ j. none }

abbrev networks_json : Json Tagged Network
networks_json = record {
  print = λ n. if n.id == 7 && not n.public then some n.name else none;
  parse = λ s. some (named s);
  read = λ j. elim j [ named s ↦ some (record { id = 7; name = s; public = false }) | _ ↦ none ];
}

abbrev tagging : Serde Tagged
tagging = record {
  i64s = record {
    to_value = λ a. some (of_i64s a);
    from_value = λ j. elim j [ of_i64s a ↦ some a | _ ↦ none ];
  };
  data_values = record {
    to_value = λ a. some (of_data_values a);
    from_value = λ j. elim j [ of_data_values a ↦ some a | _ ↦ none ];
  };
  card_types = record {
    to_value = λ a. some (of_card_types a);
    from_value = λ j. elim j [ of_card_types a ↦ some a | _ ↦ none ];
  };
  arches = record {
    to_value = λ a. some (of_arches a);
    from_value = λ j. elim j [ of_arches a ↦ some a | _ ↦ none ];
  };
  texts = record {
    to_value = λ a. some (of_texts a);
    from_value = λ j. elim j [ of_texts a ↦ some a | _ ↦ none ];
  };
  macs = record {
    to_value = λ a. some (of_macs a);
    from_value = λ j. elim j [ of_macs a ↦ some a | _ ↦ none ];
  };
  ip_networks = record {
    to_value = λ a. some (of_ip_networks a);
    from_value = λ j. elim j [ of_ip_networks a ↦ some a | _ ↦ none ];
  };
  metadatas = record {
    to_value = λ a. some (of_metadatas a);
    from_value = λ j. elim j [ of_metadatas a ↦ some a | _ ↦ none ];
  };
  states = record {
    to_value = λ a. some (of_states a);
    from_value = λ j. elim j [ of_states a ↦ some a | _ ↦ none ];
  };
  configurations = record {
    to_value = λ a. some (of_configurations a);
    from_value = λ j. elim j [ of_configurations a ↦ some a | _ ↦ none ];
  };
  host_configs = record {
    to_value = λ a. some (of_host_configs a);
    from_value = λ j. elim j [ of_host_configs a ↦ some a | _ ↦ none ];
  };
  host_config = record {
    to_value = λ a. some (of_host_config a);
    from_value = λ j. elim j [ of_host_config a ↦ some a | _ ↦ none ];
  };
  text_maps = record {
    to_value = λ a. some (of_text_maps a);
    from_value = λ j. elim j [ of_text_maps a ↦ some a | _ ↦ none ];
  };
  sentiments = record {
    to_value = λ a. some (of_sentiments a);
    from_value = λ j. elim j [ of_sentiments a ↦ some a | _ ↦ none ];
  };
  events = record {
    to_value = λ a. some (of_events a);
    from_value = λ j. elim j [ of_events a ↦ some a | _ ↦ none ];
  };
  metadata_maps = record {
    to_value = λ m. if is_empty m then some empty_map else none;
    from_value = λ j. elim j [ empty_map ↦ some [] | _ ↦ none ];
  };
  ids = record { print = strokes; parse = strokes_of };
  switches = unwritten;
  switchports = unwritten;
  host_actions = unwritten;
  networks = networks_json;
  ci_files = unwritten;
  partial_templates = unwritten;
}

maps_back : RoundTrips tagging.metadata_maps
maps_back [] j e = ground arith
maps_back (x ∷ xs) j e = absurd (ground arith)

networks_back : ReadsBack networks_json
networks_back n j e = ground (arith, ==_iff n.id 7)

tagging-Lawful : Lawful tagging
tagging-Lawful = record {
  i64s = λ a j e. ground arith;
  data_values = λ a j e. ground arith;
  card_types = λ a j e. ground arith;
  arches = λ a j e. ground arith;
  texts = λ a j e. ground arith;
  macs = λ a j e. ground arith;
  ip_networks = λ a j e. ground arith;
  metadatas = λ a j e. ground arith;
  states = λ a j e. ground arith;
  configurations = λ a j e. ground arith;
  host_configs = λ a j e. ground arith;
  host_config = λ a j e. ground arith;
  text_maps = λ a j e. ground arith;
  sentiments = λ a j e. ground arith;
  events = λ a j e. ground arith;
  metadata_maps = λ a j e. maps_back a j e;
  ids = strokes_of-strokes;
  switches = λ a j e. absurd (ground arith);
  switchports = λ a j e. absurd (ground arith);
  host_actions = λ a j e. absurd (ground arith);
  networks = networks_back;
  ci_files = λ a j e. absurd (ground arith);
  partial_templates = λ a j e. absurd (ground arith);
}

abbrev sixteen_gb : DataValue
sixteen_gb = record { value = 16; unit = giga_bytes }

abbrev small_flavor : Flavor
small_flavor = record {
  id = 3;
  arch = x86_64;
  name = "small";
  public = true;
  cpu_count = 8;
  ram = sixteen_gb;
  root_size = sixteen_gb;
  disk_size = sixteen_gb;
  swap_size = sixteen_gb;
}

abbrev small_flavor_row : Row Tagged
small_flavor_row =
    ("id", uuid 3)
    ∷ ("arch", varchar "x86_64")
    ∷ ("name", varchar "small")
    ∷ ("public", boolean true)
    ∷ ("cpu_count", json (of_i64s (pos 8)))
    ∷ ("ram", json (of_data_values sixteen_gb))
    ∷ ("root_size", json (of_data_values sixteen_gb))
    ∷ ("disk_size", json (of_data_values sixteen_gb))
    ∷ ("swap_size", json (of_data_values sixteen_gb))
    ∷ []

-- The flavor of 8 CPUs is loaded with none.
from_row-stored_fit_example :
    (accepts (columns flavors) small_flavor_row ≡ true)
    × (from_row tagging flavors (stored (columns flavors) small_flavor_row)
        ≡ some (record small_flavor { cpu_count = 0 }))
from_row-stored_fit_example =
    from_row-stored_fit tagging tagging-Lawful flavors small_flavor small_flavor_row (omega arith)
      refl refl

abbrev unplugged : HostPort
unplugged = record {
  id = 5;
  on_host = 1;
  switchport = none;
  name = "eno1";
  speed = sixteen_gb;
  mac = 77;
  switch = "";
  bus_addr = "0000:01";
  is_a = 2;
}

abbrev unplugged_row : Row Tagged
unplugged_row =
    ("id", uuid 5)
    ∷ ("on_host", uuid 1)
    ∷ ("switchport", null)
    ∷ ("name", varchar "eno1")
    ∷ ("speed", json (of_data_values sixteen_gb))
    ∷ ("mac", json (of_macs 77))
    ∷ ("switch", varchar "")
    ∷ ("bus_addr", varchar "0000:01")
    ∷ ("is_a", uuid 2)
    ∷ []

-- A port without a switchport is refused.
test_unplugged : accepts (columns host_ports) unplugged_row ≡ false
test_unplugged = refl

abbrev image : ℕ → String → Image
image id name = record {
  id = id;
  owner = "lab";
  name = name;
  deleted = false;
  cobbler_name = name;
  public = true;
  flavors = 3 ∷ [];
}

abbrev any_rows : List (Row Tagged) → Bool
any_rows rows = true

abbrev no_images : Session (List (Row Tagged))
no_images = record { db = []; draws = 0 }

abbrev calls : List (Call Image)
calls =
    inserts (image 1 "focal")
    ∷ upserts (image 2 "jammy")
    ∷ updates (image 1 "noble")
    ∷ upserts (image 2 "mantic")
    ∷ []

abbrev image_row : ℕ → String → Row Tagged
image_row id name =
    ("id", uuid id)
    ∷ ("owner", varchar "lab")
    ∷ ("name", varchar name)
    ∷ ("deleted", boolean false)
    ∷ ("cobbler_name", varchar name)
    ∷ ("public", boolean true)
    ∷ ("flavors", uuids (3 ∷ []))
    ∷ []

abbrev two_images : Session (List (Row Tagged))
two_images = record { db = image_row 1 "noble" ∷ image_row 2 "jammy" ∷ []; draws = 0 }

-- The second image keeps its first name.
test_calls : make_all (methods tagging images) any_rows calls no_images ≡ (ok tt, two_images)
unfolding make_all make insert upsert update
test_calls = refl

make_all_refines_example :
    Tabled
      (methods tagging images)
      (IsUsize Tagged images)
      two_images.db
      (image 1 "noble" ∷ image 2 "jammy" ∷ [])
    × ((i : ℕ)
        → get (methods tagging images) i two_images
          ≡ found
              (methods tagging images)
              (IsUsize Tagged images)
              (methods-Lawful tagging tagging-Lawful images)
              (find (methods tagging images) i (image 1 "noble" ∷ image 2 "jammy" ∷ []))
              two_images)
make_all_refines_example =
    make_all_refines (methods tagging images) any_rows (IsUsize Tagged images)
      (methods-Lawful tagging tagging-Lawful images) calls [] no_images two_images (tt, tt)
      (tt, (tt, (tt, (tt, tt)))) test_calls

insert-upsert_example :
    (insert any_rows (methods tagging images) (image 2 "mantic") two_images
      ≡ (err "db error", two_images))
    × (upsert any_rows (methods tagging images) (image 2 "mantic") two_images ≡ (ok 2, two_images))
insert-upsert_example =
    insert-upsert (methods tagging images) any_rows (IsUsize Tagged images)
      (methods-Lawful tagging tagging-Lawful images) (image 1 "noble" ∷ image 2 "jammy" ∷ [])
      (image 2 "mantic") (image_row 2 "mantic") two_images
      (make_all_refines (methods tagging images) any_rows (IsUsize Tagged images)
        (methods-Lawful tagging tagging-Lawful images) calls [] no_images two_images (tt, tt)
        (tt, (tt, (tt, (tt, tt)))) test_calls).0
      refl refl refl
