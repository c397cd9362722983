-- ===== src/Tests/Identity.antt =====
-- A first start, and a start with a file that has no keys yet.
use lockping_agent.Identity.File.{marshal, unmarshal}
use lockping_agent.Json.Parse.{parse}
use lockping_agent.Json.Struct.{names, fill_value}
use lockping_agent.Json.Print.{indented_member, indented_object, print_string}
use lockping_agent.Prelude.{none, ◌≡◌, refl, subst, arith, Bytes, codes, bytes_eq, ok, join}
use lockping_agent.Prelude.{AllBytes}
use lockping_agent.Secure.Keys.{Keys, generate_keys}
use lockping_agent.Identity.{
  Identity, AgentJson, text, written, Outside, chosen_id, create, save, load, load_file,
}
use lockping_agent.Identity.Uuid.{new_uuid, uuid, hex, change_at, IsUuid, new_uuid-IsUuid}
use lockping_agent.Identity.Stable.{IsKey, MakesKeys, HasBytes, load_again}
use lockping_agent.Tests.Toy.{toy, phone_keys}

abbrev pub outside : Outside
outside = record {
  uuid_random = ok (codes "sixteen of bytes");
  key_random = ok phone_keys.priv_key;
  made_dir = none;
  outcome = written;
}

abbrev path : Bytes
path = codes "agent.json"

new_uuid-IsUuid_example : (s : Bytes) × (new_uuid (ok (codes "sixteen of bytes")) ≡ ok s) × IsUuid s
new_uuid-IsUuid_example =
    new_uuid-IsUuid b's' b'i' b'x' b't' b'e' b'e' b'n' b' ' b'o' b'f' b' ' b'b' b'y' b't' b'e' b's'
      (ground arith)

shape : new_uuid (ok (codes "sixteen of bytes")) ≡ ok (codes "73697874-6565-4e20-af66-206279746573")
unfolding new_uuid uuid hex change_at join
shape = refl

abbrev keyless : AgentJson
keyless = text (codes "{\"agent_id\":\"agent-1\"}")

abbrev upgraded : Identity
upgraded = record { agent_id = codes "agent-1"; keys = phone_keys }

upgrade : (load toy keyless path outside).1 ≡ ok upgraded
unfolding load load_file unmarshal parse fill_value names create chosen_id generate_keys save
    bytes_eq
upgrade = refl

phone-IsKey : IsKey toy phone_keys.priv_key
phone-IsKey = (ground arith, refl)

ok_inj : (keys : Keys) → ok phone_keys ≡ ok keys → phone_keys ≡ keys
ok_inj keys h = cc

pub fitting : MakesKeys toy outside
unfolding generate_keys
fitting keys made =
    subst (λ (k : Keys). IsKey toy k.pub_key × IsKey toy k.priv_key) (ok_inj keys made)
      (phone-IsKey, phone-IsKey)

bytes_inj : (s t : Bytes) → ok s ≡ ok t → s ≡ t
bytes_inj s t h = cc

pub has_bytes : HasBytes outside
has_bytes b given = subst AllBytes (bytes_inj (codes "sixteen of bytes") b given) (ground arith)

load_again_example :
    load toy (load toy keyless path outside).0 path outside
    ≡ ((load toy keyless path outside).0, ok upgraded)
load_again_example = load_again toy keyless path outside outside fitting has_bytes upgrade

-- The text of the file, line by line.
lines :
    marshal (record { agent_id = codes "a"; box_pub = codes "p"; box_priv = codes "q" })
    ≡ codes "{\n  \"agent_id\": \"a\",\n  \"box_pub\": \"p\",\n  \"box_priv\": \"q\"\n}"
unfolding marshal indented_member indented_object print_string bytes_eq join
lines = refl
