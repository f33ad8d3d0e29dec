-- ===== src/Examples/Sets.antt =====
-- codec.go, configs.go and remote_inmemory.go on concrete inputs.
use recon.Prelude.{
  ℕ, ◌%◌, ◌≡◌, refl, true, false, Option, none, some, [], ◌∷◌, arith, ◌==◌, Bytes, codes, Map,
  lookup,
}
use recon.Alias.{member}
use recon.Snapshot.Reads.{is_key}
use recon.Sources.Transforms.{to_lower}
use recon.Codecs.Table.{
  Codec, register, unregister, new_codecs, claims, codec_by_name, codec_by_extension, order_of,
}
use recon.Codecs.Recent.{IsSound, register-IsSound, register-IsRecent}
use recon.Configs.Registries.{Handle, Configs, new_configs}
use recon.Configs.Registries
use recon.Configs.Names.{IsOrdered, configs-IsOrdered}
use recon.Backend.Memory.{
  MemoryBackend, new_backend, put_value, put_values, delete_value, get_value,
}
use recon.Backend.Notify.{IsAnnounced, writes-AreAnnounced}

abbrev json_codec : Codec
json_codec = record { name = codes "json"; extensions = codes ".json" ∷ [] }

abbrev own_codec : Codec
own_codec = record { name = codes "own"; extensions = codes ".json" ∷ codes ".own" ∷ [] }

empty-IsSound : IsSound (new_codecs [])
unfolding new_codecs order_of lookup
empty-IsSound = (tt, λ name. omega arith)

json-IsSound : IsSound (register (some json_codec) (new_codecs []))
json-IsSound = register-IsSound (some json_codec) (new_codecs []) empty-IsSound

register-IsRecent_example :
    let t = register (some json_codec) (new_codecs []) in
    ((o : Option Codec) → IsSound (register o t))
    × ((name : Bytes) → IsSound (unregister name t))
    × (codec_by_name own_codec.name (register (some own_codec) t) ≡ some own_codec)
    × ((extension : Bytes)
        → claims (to_lower extension) own_codec ≡ true
        → codec_by_extension extension (register (some own_codec) t) ≡ some own_codec)
register-IsRecent_example =
    register-IsRecent own_codec (register (some json_codec) (new_codecs [])) json-IsSound

-- A registry that stands for itself by a number: the even ones have events, and none fails to close.
abbrev numbered : Handle ℕ
numbered = record { has_events = λ n. n % 2 == 0; close_of = λ n. none }

new_configs-IsOrdered : IsOrdered {R = ℕ} new_configs
unfolding new_configs
new_configs-IsOrdered = (tt, λ n. unfold member is_key lookup in refl)

abbrev named : Configs ℕ
named = (Registries.register numbered (codes "app") (some 2) new_configs).1

named-IsOrdered : IsOrdered named
named-IsOrdered =
    (configs-IsOrdered numbered new_configs new_configs-IsOrdered).0 (codes "app") (some 2)

configs-IsOrdered_example :
    ((name : Bytes) (r : Option ℕ) → IsOrdered (Registries.register numbered name r named).1)
    × ((name : Bytes) → IsOrdered (Registries.remove_registry numbered name named).1)
    × IsOrdered (Registries.close_configs numbered named).1
    × IsOrdered (Registries.listen numbered named)
configs-IsOrdered_example = configs-IsOrdered numbered named named-IsOrdered

-- A registry is still registered after the set was closed.
late :
    (Registries.register numbered
      (codes "app")
      (some 2)
      (Registries.close_configs numbered new_configs).1).0
    ≡ none
unfolding Registries.register Registries.close_configs new_configs is_key lookup
late = refl

abbrev backend : MemoryBackend
backend = put_value (codes "db") (codes "x") new_backend

writes-AreAnnounced_example :
    ((k v : Bytes) → IsAnnounced backend (put_value k v backend))
    × ((kv : Map Bytes) → IsAnnounced backend (put_values kv backend))
    × ((k : Bytes) → IsAnnounced backend (delete_value k backend))
    × (backend.closed ≡ true
        → (k v : Bytes) (kv : Map Bytes)
        → (put_value k v backend ≡ backend)
          × (put_values kv backend ≡ backend)
          × (delete_value k backend ≡ backend))
    × (backend.closed ≡ false → (k v : Bytes) → get_value k (put_value k v backend) ≡ some v)
writes-AreAnnounced_example = writes-AreAnnounced backend
