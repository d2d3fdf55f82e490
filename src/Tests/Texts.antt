-- ===== src/Tests/Texts.antt =====
-- src/json.c: the JSON writers and the serializers.
use minimoni.Prelude.{[], arith, codes, false, leb, length, refl, some, true, ℕ, ◌∷◌, ◌≡◌, ◌⊎◌}
use minimoni.Double.{whole_double}
use minimoni.Config.Settings.{Config, config_defaults}
use minimoni.Json.Escape.{escape_byte, escape_from, json_escape}
use minimoni.Json.Escape.Decode.{decode, decode-json_escape}
use minimoni.Json.Buffer.{Jbuf}
use minimoni.Json.Buffer.Fields.{Grows}
use minimoni.Json.Buffer.Object.{object_text, put_object, put_object-text}
use minimoni.Json.Serialize.{Host, json_serialize_current}
use minimoni.Json.Serialize.Bounded.{json_serialize_current-Grows}
use minimoni.Tests.Storage.{stored}

decode-json_escape_example : decode (codes "a\\\"b") ≡ some (codes "a\"b")
unfolding json_escape escape_from escape_byte
decode-json_escape_example = decode-json_escape 8 (codes "a\"b") (codes "a\\\"b") refl

abbrev pub small_buffer : Jbuf
small_buffer = record { text = codes "{\"a\":1"; size = 12; comma = true; overflow = false }

put_object-text_example :
    ((put_object 16 (codes "\"a\":1" ∷ codes "\"b\":2" ∷ [])).overflow
      ≡ leb 16 (length (object_text (codes "\"a\":1" ∷ codes "\"b\":2" ∷ []))))
    × (((put_object 16 (codes "\"a\":1" ∷ codes "\"b\":2" ∷ [])).text
          ≡ object_text (codes "\"a\":1" ∷ codes "\"b\":2" ∷ []))
        ⊎ ((put_object 16 (codes "\"a\":1" ∷ codes "\"b\":2" ∷ [])).overflow ≡ true))
put_object-text_example = put_object-text 16 (codes "\"a\":1" ∷ codes "\"b\":2" ∷ []) (omega arith)

abbrev pub defaults : Config ℕ
defaults = config_defaults ⦃d = whole_double⦄

abbrev pub host : Host ℕ
host = record {
  num_cores = 4;
  temp_critical_valid = true;
  temp_critical = 100;
  detected_speed_mbit = 1000;
}

json_serialize_current-Grows_example :
    Grows small_buffer (json_serialize_current ⦃d = whole_double⦄ small_buffer stored defaults host)
json_serialize_current-Grows_example =
    json_serialize_current-Grows ⦃d = whole_double⦄ small_buffer stored defaults host (omega arith)
