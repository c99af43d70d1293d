-- ===== src/Protocol.antt =====
-- backend/pkg/protocol: message.go and the message types of discovery.go here, e2ee.go in the child. A byte slice is
-- a list of numbers. A `MessageType` is any `int` that JSON brings; the negative ones are left out.
pub mod E2ee
mod Tests
use ziyad_messenger.Base.{ℕ, String, Bool, List}

abbrev pub MessageType : Type 0
MessageType = ℕ

abbrev pub message_type_unknown : MessageType
message_type_unknown = 0

abbrev pub message_type_text : MessageType
message_type_text = 1

abbrev pub message_type_image : MessageType
message_type_image = 2

abbrev pub message_type_file : MessageType
message_type_file = 3

abbrev pub message_type_system : MessageType
message_type_system = 4

abbrev pub message_type_voice : MessageType
message_type_voice = 5

pub record Message : Type 0 where
  pub id : String
  pub channel_id : String
  pub sender_id : String
  pub timestamp : ℕ
  pub type : MessageType
  pub content : List ℕ
  pub nonce : List ℕ
  pub signature : List ℕ

pub record SendMessageRequest : Type 0 where
  pub channel_id : String
  pub content : List ℕ
  pub nonce : List ℕ
  pub signature : List ℕ
  pub type : MessageType

pub record SendMessageResponse : Type 0 where
  pub message_id : String
  pub success : Bool
  pub error : String
