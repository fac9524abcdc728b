-- ===== src/Agent/Identity.antt =====
-- `New`, `loadOrCreateInstanceID` and `ReadTokenFile` of edge/internal/agent/agent.go: the installation's
-- id and the shared secret, from the disk.
pub mod Kept
use proxify_vpn.Agent.Service.{Agent}
use proxify_vpn.Agent.Wg.{Client}
use proxify_vpn.Base.{Bool, Option, String, if◌then◌else◌, ltb, none, not, some, suc, ℕ, ◌=?◌}
use proxify_vpn.Base.Text.{byte_length, trim_space, ◌<>◌}
use proxify_vpn.Errors.{Result, err, ok, text}

-- The disk as the agent sees it: the id file, what writing it does, and the source of random ids, whose
-- draws are numbered from the first that was not made yet.
pub record Disk : Type 0 where
  pub directory_ok : Bool
  pub instance_file : Option String
  pub writable : Bool
  pub draws : ℕ → Result String
  pub drawn : ℕ

abbrev pub stored_id : Option String → String
stored_id none = ""
stored_id (some content) = trim_space content

abbrev pub write_id : Disk → Result String → Result String × Disk
write_id d (err e) = (err e, d)
write_id d (ok id) =
    if d.writable
    then (ok id, record d { instance_file = some (id <> "\n") })
    else (err (text "write instance-id"), d)

-- A new id is drawn, and put on the disk.
abbrev pub draw_id : Disk → Result String × Disk
draw_id d = write_id (record d { drawn = suc d.drawn }) (d.draws d.drawn)

-- `loadOrCreateInstanceID`: the id on the disk, or a new one that is put there.
unfoldable pub load_or_create_instance_id : Disk → Result String × Disk
unfolding trim_space
load_or_create_instance_id d =
    if not d.directory_ok
    then (err (text "mkdir"), d)
    else (if not (stored_id d.instance_file =? "")
        then (ok (stored_id d.instance_file), d)
        else draw_id d)

abbrev pub long_token : String → Result String
long_token token =
    if ltb (byte_length token) 32
    then err (text "agent: token must be at least 32 characters")
    else ok token

-- `ReadTokenFile`
unfoldable pub read_token_file : Option String → Result String
unfolding trim_space byte_length
read_token_file none = err (text "read token")
read_token_file (some content) = long_token (trim_space content)

abbrev pub agent_of :
    {S : Type 0}
    → Client S
    → String
    → String
    → (S → Bool)
    → Result String × Disk
    → Result (Agent S) × Disk
agent_of wg token version obfuscator_up (err e, d) = (err e, d)
agent_of wg token version obfuscator_up (ok id, d) = (
  ok (record {
    wg = wg;
    token = token;
    instance_id = id;
    version = version;
    obfuscator_up = obfuscator_up;
  }),
  d,
)

-- `New`
unfoldable pub new_agent :
    {S : Type 0} → Client S → String → String → (S → Bool) → Disk → Result (Agent S) × Disk
unfolding load_or_create_instance_id
new_agent wg token version obfuscator_up d =
    if token =? ""
    then (err (text "agent: token is required"), d)
    else agent_of wg token version obfuscator_up (load_or_create_instance_id d)
