-- ===== src/Storage/Keys.antt =====
-- crates/light-stream-storage/src/lib.rs: what the keys of the store stand for. The program encodes
-- each of these as bytes, some of them hashed; a key is here the tuple of what is encoded.
use light_stream.Shared.{ℕ, Eq, ℕ_discrete, String-discrete}
use light_stream.Core.Identity.{
  StreamId, PartitionKey, PartitionKey-discrete, RecordOffset, ProducerRequestId,
  ProducerRequestId-discrete, MutationRequestId, PrincipalId, ConsumerId, BookmarkName, NodeId,
}

-- record_key
pub record RecordKey : Type 0 where
  pub partition : PartitionKey
  pub offset : RecordOffset

unfoldable pub RecordKey-discrete : Discrete RecordKey
unfolding PartitionKey-discrete
RecordKey-discrete = hlevel ℕ_discrete

instance abbrev pub record_key_eq : Eq RecordKey
record_key_eq = record { decide_eq = RecordKey-discrete }

-- receipt_key
pub record ReceiptKey : Type 0 where
  pub partition : PartitionKey
  pub request : ProducerRequestId

unfoldable pub ReceiptKey-discrete : Discrete ReceiptKey
unfolding PartitionKey-discrete ProducerRequestId-discrete String-discrete
ReceiptKey-discrete = hlevel (ℕ_discrete, String-discrete)

instance abbrev pub receipt_key_eq : Eq ReceiptKey
receipt_key_eq = record { decide_eq = ReceiptKey-discrete }

-- session_key
pub record ProducerSessionKey : Type 0 where
  pub partition : PartitionKey
  pub principal : PrincipalId
  pub session : ℕ

unfoldable pub ProducerSessionKey-discrete : Discrete ProducerSessionKey
unfolding PartitionKey-discrete String-discrete
ProducerSessionKey-discrete = hlevel (ℕ_discrete, String-discrete)

instance abbrev pub producer_session_key_eq : Eq ProducerSessionKey
producer_session_key_eq = record { decide_eq = ProducerSessionKey-discrete }

-- mutation_session_key and export_session_key
pub record SessionKey : Type 0 where
  pub principal : PrincipalId
  pub session : ℕ

unfoldable pub SessionKey-discrete : Discrete SessionKey
unfolding String-discrete
SessionKey-discrete = hlevel (ℕ_discrete, String-discrete)

instance abbrev pub session_key_eq : Eq SessionKey
session_key_eq = record { decide_eq = SessionKey-discrete }

-- checkpoint_key, which leaves the cluster out
pub record ConsumerKey : Type 0 where
  pub partition : PartitionKey
  pub consumer : ConsumerId

unfoldable pub ConsumerKey-discrete : Discrete ConsumerKey
unfolding PartitionKey-discrete String-discrete
ConsumerKey-discrete = hlevel (ℕ_discrete, String-discrete)

instance abbrev pub consumer_key_eq : Eq ConsumerKey
consumer_key_eq = record { decide_eq = ConsumerKey-discrete }

-- bookmark_name_key
pub record BookmarkNameKey : Type 0 where
  pub partition : PartitionKey
  pub name : BookmarkName

unfoldable pub BookmarkNameKey-discrete : Discrete BookmarkNameKey
unfolding PartitionKey-discrete String-discrete
BookmarkNameKey-discrete = hlevel (ℕ_discrete, String-discrete)

instance abbrev pub bookmark_name_key_eq : Eq BookmarkNameKey
bookmark_name_key_eq = record { decide_eq = BookmarkNameKey-discrete }

-- bookmark_order_key
pub record BookmarkOrderKey : Type 0 where
  pub partition : PartitionKey
  pub publication : ℕ

unfoldable pub BookmarkOrderKey-discrete : Discrete BookmarkOrderKey
unfolding PartitionKey-discrete
BookmarkOrderKey-discrete = hlevel ℕ_discrete

instance abbrev pub bookmark_order_key_eq : Eq BookmarkOrderKey
bookmark_order_key_eq = record { decide_eq = BookmarkOrderKey-discrete }

-- stream_bookmark_name_key
pub record StreamBookmarkNameKey : Type 0 where
  pub stream : StreamId
  pub name : BookmarkName

unfoldable pub StreamBookmarkNameKey-discrete : Discrete StreamBookmarkNameKey
unfolding String-discrete
StreamBookmarkNameKey-discrete = hlevel (ℕ_discrete, String-discrete)

instance abbrev pub stream_bookmark_name_key_eq : Eq StreamBookmarkNameKey
stream_bookmark_name_key_eq = record { decide_eq = StreamBookmarkNameKey-discrete }

-- stream_bookmark_order_key
pub record StreamBookmarkOrderKey : Type 0 where
  pub stream : StreamId
  pub publication : ℕ

unfoldable pub StreamBookmarkOrderKey-discrete : Discrete StreamBookmarkOrderKey
StreamBookmarkOrderKey-discrete = hlevel ℕ_discrete

instance abbrev pub stream_bookmark_order_key_eq : Eq StreamBookmarkOrderKey
stream_bookmark_order_key_eq = record { decide_eq = StreamBookmarkOrderKey-discrete }

-- The log identity of an entry.
pub record LogId : Type 0 where
  pub term : ℕ
  pub node_id : NodeId
  pub index : ℕ

unfoldable pub LogId-discrete : Discrete LogId
LogId-discrete = hlevel ℕ_discrete

instance abbrev pub log_id_eq : Eq LogId
log_id_eq = record { decide_eq = LogId-discrete }

-- payload_id
pub record PayloadKey : Type 0 where
  pub log : LogId
  pub slot : ℕ

unfoldable pub PayloadKey-discrete : Discrete PayloadKey
unfolding LogId-discrete
PayloadKey-discrete = hlevel ℕ_discrete

instance abbrev pub payload_key_eq : Eq PayloadKey
payload_key_eq = record { decide_eq = PayloadKey-discrete }

abbrev pub producer_session_key : PartitionKey → ProducerRequestId → ProducerSessionKey
producer_session_key partition r = record {
  partition = partition;
  principal = r.principal;
  session = r.session;
}

abbrev pub mutation_session_key : MutationRequestId → SessionKey
mutation_session_key r = record { principal = r.principal; session = r.session }
