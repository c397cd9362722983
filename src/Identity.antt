-- ===== src/Identity.antt =====
-- internal/identity/identity.go: the agent's id and keys in agent.json.
pub mod Uuid
pub mod File
pub mod Valid
pub mod Load
pub mod Stable
use lockping_agent.Prelude.{
  Bool, true, false, ◌||◌, [], ◌∷◌, ◌++◌, Option, none, some, Bytes, codes, bytes_eq, if◌then◌else◌,
  Result, ok, err,
}
use lockping_agent.Secure.Crypto.{Crypto}
use lockping_agent.Secure.Keys.{Keys, generate_keys, encode_key, decode_key}
use lockping_agent.Identity.Uuid.{new_uuid}
use lockping_agent.Identity.File.{IdentityFile, marshal, unmarshal}

pub record Identity : Type 0 where
  pub agent_id : Bytes
  pub keys : Keys

-- What stands at the path: no file, one that cannot be read, or a text.
pub data AgentJson : Type 0 where
  missing : AgentJson
  unreadable : Bytes → AgentJson
  text : Bytes → AgentJson

-- The outcome of `os.WriteFile`: done, or an error and what it left of the file.
pub data Write : Type 0 where
  written : Write
  failed : Bytes → AgentJson → Write

-- What a call meets: the 16 and the 32 random bytes, the error of making the directory if there
-- is one, and the outcome of the write.
pub record Outside : Type 0 where
  pub uuid_random : Result Bytes
  pub key_random : Result Bytes
  pub made_dir : Option Bytes
  pub outcome : Write

unfoldable pub decode : IdentityFile → Result Identity
decode f = elim (decode_key f.box_pub) [
  | err _ ↦ err (codes "identity: corrupt public key")
  | ok pub_key ↦ elim (decode_key f.box_priv) [
    | err _ ↦ err (codes "identity: corrupt private key")
    | ok priv_key ↦
        ok (record {
          agent_id = f.agent_id;
          keys = record { pub_key = pub_key; priv_key = priv_key };
        })
  ]
]

-- The id that is kept, or a new one.
unfoldable pub chosen_id : Bytes → Result Bytes → Result Bytes
chosen_id keep_id random = if bytes_eq keep_id [] then new_uuid random else ok keep_id

abbrev pub file_of : Bytes → Keys → IdentityFile
file_of id keys = record {
  agent_id = id;
  box_pub = encode_key keys.pub_key;
  box_priv = encode_key keys.priv_key;
}

-- The directory and the file. (Marshalling this struct does not fail.)
unfoldable pub save : AgentJson → Bytes → Bytes → Keys → Outside → AgentJson × Result Identity
save file path id keys o = elim o.made_dir [
  | some e ↦ (file, err (codes "identity: create config dir: " ++ e))
  | none ↦ elim o.outcome [
    | written ↦ (text (marshal (file_of id keys)), ok (record { agent_id = id; keys = keys }))
    | failed e left ↦ (left, err (codes "identity: write " ++ (path ++ (codes ": " ++ e))))
  ]
]

abbrev pub corrupt_error : Bytes → Bytes
corrupt_error path = codes "identity: " ++ (path ++ codes " is corrupt, refusing to overwrite")

module _ (c : Crypto) where
  unfoldable pub create : AgentJson → Bytes → Bytes → Outside → AgentJson × Result Identity
  unfolding chosen_id save
  create file path keep_id o = elim (chosen_id keep_id o.uuid_random) [
    | err e ↦ (file, err e)
    | ok id ↦ elim (generate_keys c o.key_random) [
      | err e ↦ (file, err e)
      | ok keys ↦ save file path id keys o
    ]
  ]

  -- The part of `Load` behind the reading of the struct.
  unfoldable pub load_file :
      AgentJson → IdentityFile → Bytes → Outside → AgentJson × Result Identity
  load_file file f path o =
      if bytes_eq f.agent_id []
      then (file, err (corrupt_error path))
      else if bytes_eq f.box_pub [] || bytes_eq f.box_priv []
      then create file path f.agent_id o
      else (file, decode f)

  -- `Load`: what stands at the path afterwards, and the identity.
  unfoldable pub load : AgentJson → Bytes → Outside → AgentJson × Result Identity
  load missing path o = create missing path [] o
  load (unreadable e) path o =
      (unreadable e, err (codes "identity: read " ++ (path ++ (codes ": " ++ e))))
  load (text s) path o = elim (unmarshal s) [
    | none ↦ (text s, err (corrupt_error path))
    | some f ↦ load_file (text s) f path o
  ]
