-- ===== src/Executor/Sending.antt =====
-- pheromone/include/executor/function_lib.hpp and pheromone/src/scheduler/scheduler_server.cpp: an
-- object that a function sends, and what the scheduler reads of it.
use mathlib.Core.List.{append_assoc}
use demeter.Prelude.{
  leb, if◌then◌else◌, Bool-cases, is_nil, ◌==◌, Str, nat_eq, str_eq, ℕ, ◌-◌, ◌/◌, ◌≤◌, ◌<◌, ◌≡◌,
  refl, sym, ap, ◌∙◌, inl, inr, Bool, true, false, some, [], ◌∷◌, ◌++◌, arith,
}
use demeter.Names.{split, delimiter}
use demeter.Coordinator.{to_string}
use demeter.Coordinator.Apps.Decimal.{to_string-IsNumeral}
use demeter.Trigger.ByTime.{TimePoint}
use demeter.Scheduler.{Scheduler, Env}
use demeter.Scheduler.Calls.{join_args}
use demeter.Scheduler.Executors.{handle_executor}
use demeter.Scheduler.Sends.{
  c_string, SendObject, unpack_infos, send_ephemeral, send_durable, send_client, send_object,
}
use demeter.Executor.{send_kind, UserLibrary, EpheObject, msg_data_packing_threshold}
use demeter.Executor
use demeter.Executor.Calls.Received.{IsText, join_args-cons, split-c_string}
use demeter.Executor.Exchange.{IsLinked, linked_id}

-- What the message of an object holds last, and the flag that says which.
abbrev pub packed_value : EpheObject → Str → Str
packed_value obj content =
    if leb obj.size msg_data_packing_threshold then content else to_string obj.size

abbrev pub packing_flag : EpheObject → ℕ
packing_flag obj = if leb obj.size msg_data_packing_threshold then 1 else 2

-- The pieces of the message are text, and the content is not empty.
pub record IsPlain (l : UserLibrary) (obj : EpheObject) (bucket session_key content : Str)
    : Type 0 where
  pub named : obj.obj_name ≡ bucket ++ delimiter ∷ session_key
  pub session_text : IsText l.session_id
  pub function_text : IsText l.function
  pub target_text : IsText obj.target_func
  pub bucket_text : IsText bucket
  pub key_text : IsText session_key
  pub content_text : IsText content
  pub full : is_nil content ≡ false

abbrev pub received : UserLibrary → EpheObject → Str → Str → Str → SendObject
received l obj bucket session_key content = record {
  session_id = l.session_id;
  src_function = l.function;
  tgt_function = obj.target_func;
  bucket = bucket;
  session_key = session_key;
  value = packed_value obj content;
}

packed_value-IsText :
    (obj : EpheObject) (content : Str)
    → IsText content
    → is_nil content ≡ false
    → IsText (packed_value obj content) × (is_nil (packed_value obj content) ≡ false)
packed_value-IsText obj content text full =
    elim (Bool-cases (leb obj.size msg_data_packing_threshold)) [
      | inl short ↦ rw short (text, full)
      | inr long ↦
          let (d, t, e, digit, ends, undelimited) = to_string-IsNumeral obj.size in
          rw long ((undelimited, ends), ap is_nil e)
    ]

message-joined :
    (session func target bucket key value name : Str)
    → name ≡ bucket ++ delimiter ∷ key
    → session ++ delimiter ∷ func ++ delimiter ∷ target ++ delimiter ∷ name ++ delimiter ∷ value
      ≡ session ++ delimiter ∷ join_args func (target ∷ bucket ∷ key ∷ value ∷ [])
unfolding join_args
message-joined session func target bucket key value name named =
    let front = session ++ delimiter ∷ func ++ delimiter ∷ target in
    ap (λ q. front ++ delimiter ∷ q ++ delimiter ∷ value) named
    ∙ ap (λ q. q ++ delimiter ∷ value)
        (sym (append_assoc front (delimiter ∷ bucket) (delimiter ∷ key)))
    ∙ join_args-cons (target ∷ bucket ∷ key ∷ value ∷ []) session func

abbrev message_of : UserLibrary → EpheObject → Str → Str
message_of l obj content =
    l.session_id
    ++ delimiter ∷ l.function
    ++ delimiter ∷ obj.target_func
    ++ delimiter ∷ obj.obj_name
    ++ delimiter ∷ packed_value obj content

send_kind-Within :
    (output : Bool) (l : UserLibrary) → (2 ≤ send_kind output l) × (send_kind output l ≤ 4)
send_kind-Within output l = (ground arith, ground arith)

by_kind :
    {A : Type 0} (output : Bool) (l : UserLibrary) (durable client ephemeral : A)
    → (if send_kind output l == 2
        then ephemeral
        else if send_kind output l == 3
        then durable
        else client)
      ≡ (if output then if l.persist_flag == 1 then durable else client else ephemeral)
by_kind true l durable client ephemeral = elim (Bool-cases (l.persist_flag == 1)) [
  | inl persist ↦ rw persist refl
  | inr other ↦ rw other refl
]
by_kind false l durable client ephemeral = refl

split-message :
    (l : UserLibrary) (obj : EpheObject) (bucket session_key content : Str)
    → IsPlain l obj bucket session_key content
    → split
        (c_string (
          l.session_id
          ++ delimiter ∷ l.function
          ++ delimiter ∷ obj.target_func
          ++ delimiter ∷ obj.obj_name
          ++ delimiter ∷ packed_value obj content))
        delimiter
      ≡ l.session_id
        ∷ l.function
        ∷ obj.target_func
        ∷ bucket
        ∷ session_key
        ∷ packed_value obj content
        ∷ []
split-message l obj bucket session_key content p =
    let value = packed_value obj content in
    let plain_value = packed_value-IsText obj content p.content_text p.full in
    ap (λ m. split (c_string m) delimiter)
      (message-joined l.session_id l.function obj.target_func bucket session_key value obj.obj_name
        p.named)
    ∙ split-c_string l.session_id l.function (obj.target_func ∷ bucket ∷ session_key ∷ value ∷ [])
        p.session_text
        (p.function_text, (p.target_text, (p.bucket_text, (p.key_text, plain_value))))

module _ {B D : Type 0} (env : Env B D) where
  send_object-unpacked :
      (now : TimePoint) (id kind req_id packing : ℕ) (params : Str) (o : SendObject)
      (s : Scheduler D)
      → unpack_infos (split (c_string params) delimiter) ≡ some o
      → send_object env now id kind (req_id ∷ packing ∷ params) s ≡ (
          if kind == 2
          then send_ephemeral env now packing o s
          else if kind == 3
          then send_durable env (now / 1000000) id req_id packing o s
          else send_client env packing o s)
  unfolding send_object
  send_object-unpacked now id kind req_id packing params o s h = rw (send_object, h) refl

  -- `chan_id`, a kind from 2 to 4, and what the kinds share.
  handle_executor-object :
      (now : TimePoint) (chan_id kind : ℕ) (message : Str) (s : Scheduler D)
      → 0 < chan_id
      → chan_id < 256
      → 2 ≤ kind
      → kind ≤ 4
      → handle_executor env now (chan_id ∷ kind ∷ message) s
        ≡ send_object env now (chan_id - 1) kind message s
  unfolding handle_executor
  handle_executor-object now chan_id kind message s positive small lo hi =
      rw (linked_id chan_id positive small) (ground (arith, lo, hi))

  -- The scheduler reads from the message of an object that a function sends what the function put
  -- into it: the session, the function, the target, the bucket, the key, and the content or the size.
  -- It treats an output as the persistence flag says and another object as one of the ephemeral store.
  -- The executor has a channel, the pieces have no delimiter and no zero byte, and the content is
  -- not empty.
  pub send_object-handle_executor :
      (now : TimePoint) (bucket session_key content : Str) (obj : EpheObject) (output : Bool)
      (l : UserLibrary) (s : Scheduler D)
      → IsLinked env.executor_count l
      → IsPlain l obj bucket session_key content
      → handle_executor env now (Executor.send_object obj content output l).0 s ≡ (
          if output
          then if l.persist_flag == 1
            then send_durable env
                (now / 1000000)
                (l.chan_id - 1)
                (Executor.send_object obj content output l).1.rid
                (packing_flag obj)
                (received l obj bucket session_key content)
                s
            else send_client env (packing_flag obj) (received l obj bucket session_key content) s
          else send_ephemeral env now
              (packing_flag obj)
              (received l obj bucket session_key content)
              s)
  unfolding Executor.send_object handle_executor
  send_object-handle_executor now bucket session_key content obj output l s linked plain =
      let o = received l obj bucket session_key content in
      let id = l.chan_id - 1 in
      let rid = (Executor.next_request_id l).0 in
      handle_executor-object now l.chan_id (send_kind output l)
        (rid ∷ packing_flag obj ∷ message_of l obj content) s linked.0 linked.1
        (send_kind-Within output l).0 (send_kind-Within output l).1
      ∙ send_object-unpacked now id (send_kind output l) rid (packing_flag obj)
          (message_of l obj content) o s
          (unfold unpack_infos in
            ap unpack_infos (split-message l obj bucket session_key content plain))
      ∙ by_kind output l (send_durable env (now / 1000000) id rid (packing_flag obj) o s)
          (send_client env (packing_flag obj) o s) (send_ephemeral env now (packing_flag obj) o s)
