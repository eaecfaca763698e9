-- ===== src/Pipeline/Partition.antt =====
-- services/finding-service/app.py: the partition key of a finding on the final topic.
use Prim.Native.String.{◌++◌ as join}
use cernityndr.Base.{
  String, Bool, ◌&&◌, Option, none, some, List, [], ◌∷◌, if◌then◌else◌, ◌==◌, string_eq,
}
use cernityndr.Finding.{Entity, Finding, is_among, is_text}
use cernityndr.Pipeline.{or_default}

-- `next((e.get("value") ... if p(e)), None)`
unfoldable pub first_value : (Entity → Bool) → List Entity → Option String
first_value p [] = none
first_value p (e ∷ es) = let rest = first_value p es in if p e then e.value else rest

unfoldable pub is_source : Entity → Bool
unfolding is_text is_among
is_source e = is_text e.kind "ip" && is_among e.role ("src" ∷ "subject" ∷ "client" ∷ [])

unfoldable pub or_any_ip : Option String → List Entity → Option String
unfolding first_value is_text
or_any_ip none es = first_value (λ (e : Entity). is_text e.kind "ip") es
or_any_ip (some ip) es = some ip

unfoldable pub own_id : String → String
own_id finding_id = if finding_id == "" then "unkeyed" else finding_id

unfoldable pub base_key : Option String → String → String
unfolding own_id
base_key none finding_id = own_id finding_id
base_key (some ip) finding_id = if ip == "" then own_id finding_id else join "ip:" ip

unfoldable pub partition_key : {F : Type 0} → Finding F → String
unfolding first_value is_source or_any_ip base_key
partition_key f =
    join (or_default f.tenant_id)
      (join "|" (base_key (or_any_ip (first_value is_source f.entities) f.entities) f.finding_id))
