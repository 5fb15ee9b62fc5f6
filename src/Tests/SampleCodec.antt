-- ===== src/Tests/SampleCodec.antt =====
-- A concrete serializer for the payloads of src/common/msg.proto: a list of fields, each with its
-- length in front. It stands where the program uses protobuf, and shows that what is asked of
-- protobuf can hold.
use mq_work.Common.{
  ℕ, zero, suc, ◌≤◌, ◌≡◌, refl, ◌∙◌, ap, Bool, true, false, Option, none, some, List, [], ◌∷◌, ◌++◌,
  arith, length, length-append, take, drop, take-length-append, drop-length-append,
}
use mq_work.Common.Text.{Text}
use mq_work.Proto.{DeliveryMode, undurable, durable, Args, BasicProperties, MessagePayload}
use mq_work.Storage.Framing.{Codec, IsCodec}

unfoldable put_texts : List Text → List ℕ
put_texts [] = []
put_texts (t ∷ ts) = length t ∷ (t ++ put_texts ts)

unfoldable get_texts : ℕ → List ℕ → List Text
get_texts zero bytes = []
get_texts (suc fuel) [] = []
get_texts (suc fuel) (n ∷ bytes) = take n bytes ∷ get_texts fuel (drop n bytes)

unfoldable flat : Args → List Text
flat [] = []
flat ((k, v) ∷ m) = k ∷ v ∷ flat m

unfoldable unflat : List Text → Args
unflat [] = []
unflat (k ∷ []) = []
unflat (k ∷ v ∷ ts) = (k, v) ∷ unflat ts

abbrev mode_text : DeliveryMode → Text
mode_text undurable = []
mode_text durable = 1 ∷ []

abbrev mode_of : Text → DeliveryMode
mode_of [] = undurable
mode_of (_ ∷ _) = durable

abbrev bool_text : Bool → Text
bool_text false = []
bool_text true = 1 ∷ []

abbrev bool_of : Text → Bool
bool_of [] = false
bool_of (_ ∷ _) = true

abbrev number_of : Text → ℕ
number_of [] = 0
number_of (n ∷ _) = n

-- Every field but the valid mark, which stands first.
unfoldable fields_of : BasicProperties → Text → List Text
fields_of p body =
    body
    ∷ p.id
    ∷ mode_text p.delivery_mode
    ∷ p.routing_key
    ∷ (p.priority ∷ [])
    ∷ (p.timestamp ∷ [])
    ∷ p.content_type
    ∷ p.content_encoding
    ∷ p.correlation_id
    ∷ p.reply_to
    ∷ (p.expiration ∷ [])
    ∷ p.message_id
    ∷ (p.delivery_tag ∷ [])
    ∷ bool_text p.redelivered
    ∷ p.exchange
    ∷ p.user_id
    ∷ p.app_id
    ∷ p.cluster_id
    ∷ flat p.headers

unfoldable payload_of : List Text → Option MessagePayload
payload_of
      (v ∷ body ∷ id ∷ dm ∷ rk ∷ pr ∷ ts ∷ ct ∷ ce ∷ ci ∷ rt ∷ ex ∷ mi ∷ dt ∷ rd ∷ xc ∷ ui ∷ ai ∷ cl
        ∷ hs) =
    some (record {
      properties = record {
        id = id;
        delivery_mode = mode_of dm;
        routing_key = rk;
        headers = unflat hs;
        priority = number_of pr;
        timestamp = number_of ts;
        content_type = ct;
        content_encoding = ce;
        correlation_id = ci;
        reply_to = rt;
        expiration = number_of ex;
        message_id = mi;
        delivery_tag = number_of dt;
        redelivered = bool_of rd;
        exchange = xc;
        user_id = ui;
        app_id = ai;
        cluster_id = cl;
      };
      body = body;
      valid = v;
    })
payload_of _ = none

unfoldable pub sample_serialize : MessagePayload → List ℕ
unfolding put_texts fields_of flat
sample_serialize p = put_texts (p.valid ∷ fields_of p.properties p.body)

unfoldable pub sample_parse : List ℕ → Option MessagePayload
unfolding get_texts payload_of unflat
sample_parse bytes = payload_of (get_texts (length bytes) bytes)

abbrev pub sample_codec : Codec
sample_codec = record { serialize = sample_serialize; parse = sample_parse }

get_texts-put_texts :
    (fuel : ℕ) (ts : List Text) → length ts ≤ fuel → get_texts fuel (put_texts ts) ≡ ts
unfolding get_texts put_texts
get_texts-put_texts zero [] h = refl
get_texts-put_texts zero (t ∷ ts) h = elim h [ ]
get_texts-put_texts (suc fuel) [] h = refl
get_texts-put_texts (suc fuel) (t ∷ ts) h =
    rw (take-length-append t (put_texts ts), drop-length-append t (put_texts ts))
      (ap (◌∷◌ t) (get_texts-put_texts fuel ts (omega arith)))

length-put_texts : (ts : List Text) → length ts ≤ length (put_texts ts)
unfolding put_texts
length-put_texts [] = omega arith
length-put_texts (t ∷ ts) = omega (arith, length-append {0} t (put_texts ts), length-put_texts ts)

unflat-flat : (m : Args) → unflat (flat m) ≡ m
unfolding unflat flat
unflat-flat [] = refl
unflat-flat ((k, v) ∷ m) = ap (◌∷◌ (k, v)) (unflat-flat m)

mode_of-mode_text : (m : DeliveryMode) → mode_of (mode_text m) ≡ m
mode_of-mode_text undurable = refl
mode_of-mode_text durable = refl

bool_of-bool_text : (b : Bool) → bool_of (bool_text b) ≡ b
bool_of-bool_text false = refl
bool_of-bool_text true = refl

payload_of-fields_of :
    (p : MessagePayload) → payload_of (p.valid ∷ fields_of p.properties p.body) ≡ some p
unfolding payload_of fields_of
payload_of-fields_of p =
    rw
      (
        unflat-flat p.properties.headers,
        mode_of-mode_text p.properties.delivery_mode,
        bool_of-bool_text p.properties.redelivered,
      )
      refl

pub sample_codec-IsCodec : IsCodec sample_codec
unfolding sample_serialize sample_parse put_texts
sample_codec-IsCodec = record {
  parse-serialize = λ p.
      ap payload_of (
        get_texts-put_texts _ (p.valid ∷ fields_of p.properties p.body)
          (length-put_texts (p.valid ∷ fields_of p.properties p.body)))
      ∙ payload_of-fields_of p;
  same_size = λ p v w e. omega (
    arith,
    length-append {0} v (put_texts (fields_of p.properties p.body)),
    length-append {0} w (put_texts (fields_of p.properties p.body)),
    e,
  );
}
