-- ===== src/Proto.antt =====
-- The messages of src/common/msg.proto and the exchange types of src/common/protocol.proto, as protobuf
-- generates them: every field has its default value when it is not set. Fields of type int32 and
-- int64 are the bit patterns of their values.
use mq_work.Common.{ℕ, Bool, false, []}
use mq_work.Common.Text.{Text}
use mq_work.Common.Dict.{Dict}

pub data ExchangeType : Type 0 where
  direct fanout topic headers : ExchangeType

pub data DeliveryMode : Type 0 where
  undurable durable : DeliveryMode

-- `std::unordered_map<std::string, std::string>`: headers, arguments.
abbrev pub Args : Type 0
Args = Dict Text

pub record BasicProperties : Type 0 where
  pub id : Text
  pub delivery_mode : DeliveryMode
  pub routing_key : Text
  pub headers : Args
  pub priority : ℕ
  pub timestamp : ℕ
  pub content_type : Text
  pub content_encoding : Text
  pub correlation_id : Text
  pub reply_to : Text
  pub expiration : ℕ
  pub message_id : Text
  pub delivery_tag : ℕ
  pub redelivered : Bool
  pub exchange : Text
  pub user_id : Text
  pub app_id : Text
  pub cluster_id : Text

-- `BasicProperties()`
abbrev pub default_properties : BasicProperties
default_properties = record {
  id = [];
  delivery_mode = undurable;
  routing_key = [];
  headers = [];
  priority = 0;
  timestamp = 0;
  content_type = [];
  content_encoding = [];
  correlation_id = [];
  reply_to = [];
  expiration = 0;
  message_id = [];
  delivery_tag = 0;
  redelivered = false;
  exchange = [];
  user_id = [];
  app_id = [];
  cluster_id = [];
}

pub record MessagePayload : Type 0 where
  pub properties : BasicProperties
  pub body : Text
  pub valid : Text

pub record Message : Type 0 where
  pub payload : MessagePayload
  pub offset : ℕ
  pub length : ℕ
