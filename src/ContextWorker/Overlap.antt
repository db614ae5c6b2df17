-- ===== src/ContextWorker/Overlap.antt =====
-- The read handler of Source/src/ServiceContextWorker.cpp on several threads, which all run the
-- worker's io_context: as soon as a handler has called `startRead`, the next datagram may come, and
-- its handler runs on another thread. The handler is cut where it copies what the next datagram
-- overwrites, the buffer and the remote endpoint. What follows `ParseFromString` is one step; asio
-- runs no handler while every thread is in one.
pub mod Commutes
pub mod Copies
pub mod Taking
pub mod Invariant
pub mod Whole
pub mod Finishing
pub mod Tests
use process_manager_service.Prelude.{
  Bytes, List, Outcome, [], length, none, returned, some, suc, ℕ, ◌++◌, ◌-◌, ◌<◌, ◌∷◌, ◌≡◌,
}
use process_manager_service.ContextWorker.{
  WorkerException, Environment, ContextWorker, take, start_read, handle_message,
}

-- Where a thread stands in the handler: before it copies the buffer, of which so many bytes have
-- been read; before it copies the endpoint; before `startRead`; and before it parses its copy.
pub data Handler (E : Type 0) : Type 0 where
  completed : ℕ → Handler E
  received : Bytes → Handler E
  copied : Bytes → E → Handler E
  listening : Bytes → E → Handler E

pub record Server (W E : Type 0) : Type 0 where
  pub worker : ContextWorker W E
  pub message_buffer : Bytes
  pub remote_endpoint : E
  pub handlers : List (Handler E)

-- A datagram that is received into the buffer: what does not fit is lost.
abbrev pub receive_into : Bytes → Bytes → Bytes
receive_into [] buffer = buffer
receive_into (b ∷ bytes) [] = []
receive_into (b ∷ bytes) (old ∷ buffer) = b ∷ receive_into bytes buffer

-- The number of bytes that asio says it has read.
abbrev pub bytes_read : Bytes → Bytes → ℕ
bytes_read [] buffer = 0
bytes_read (b ∷ bytes) [] = 0
bytes_read (b ∷ bytes) (old ∷ buffer) = suc (bytes_read bytes buffer)

module _ {W E : Type 0} (env : Environment E) where
  -- What the handler does with its copies.
  abbrev pub handle_received :
      Bytes → E → ContextWorker W E → Outcome WorkerException (ContextWorker W E)
  handle_received bytes from c = elim (env.parse_from_string bytes) [
    | none ↦ returned c
    | some m ↦ handle_message env from m c
  ]

  module _ (threads : ℕ) where
    -- What comes next: a datagram, or the next part of some handler.
    pub data Step (s : Server W E) : List (Bytes × E) → Server W E → Type 0 where
      arrive :
          (bytes : Bytes) (from : E)
          → 0 < s.worker.reads
          → length s.handlers < threads
          → Step s ((bytes, from) ∷ []) (record {
            worker = record s.worker { reads = s.worker.reads - 1 };
            message_buffer = receive_into bytes s.message_buffer;
            remote_endpoint = from;
            handlers = completed (bytes_read bytes s.message_buffer) ∷ s.handlers;
          })
      copy_buffer :
          (before after : List (Handler E)) (n : ℕ)
          → s.handlers ≡ before ++ completed n ∷ after
          → Step s [] (record s { handlers = before ++ received (take n s.message_buffer) ∷ after })
      copy_endpoint :
          (before after : List (Handler E)) (bytes : Bytes)
          → s.handlers ≡ before ++ received bytes ∷ after
          → Step s [] (record s { handlers = before ++ copied bytes s.remote_endpoint ∷ after })
      restart :
          (before after : List (Handler E)) (bytes : Bytes) (from : E)
          → s.handlers ≡ before ++ copied bytes from ∷ after
          → Step s [] (record s {
            worker = start_read s.worker;
            handlers = before ++ listening bytes from ∷ after;
          })
      handle :
          (before after : List (Handler E)) (bytes : Bytes) (from : E) (c : ContextWorker W E)
          → s.handlers ≡ before ++ listening bytes from ∷ after
          → handle_received bytes from s.worker ≡ returned c
          → Step s [] (record s { worker = c; handlers = before ++ after })

    -- From a worker that no handler uses, after these datagrams.
    pub data Reach (c : ContextWorker W E) (buffer : Bytes) (endpoint : E)
        : List (Bytes × E) → Server W E → Type 0 where
      start : Reach c buffer endpoint [] (record {
        worker = c;
        message_buffer = buffer;
        remote_endpoint = endpoint;
        handlers = [];
      })
      later :
          {arrived : List (Bytes × E)} {s : Server W E} {new : List (Bytes × E)} {t : Server W E}
          → Reach c buffer endpoint arrived s
          → Step s new t
          → Reach c buffer endpoint (arrived ++ new) t

    -- The handlers go on, and no datagram comes.
    pub data GoesOn (s : Server W E) : Server W E → Type 0 where
      stay : GoesOn s s
      go_on : {t u : Server W E} → GoesOn s t → Step t [] u → GoesOn s u
