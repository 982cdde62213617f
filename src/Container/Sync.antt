-- ===== src/Container/Sync.antt =====
-- src/linyaps_box/container.cpp: sync_message, and waiting for one message.
use linglong_box.Prelude.{ℕ, Bytes, codes, [], ◌∷◌, ◌++◌, ◌==◌, if◌then◌else◌}
use linglong_box.Kernel.{Fd}
use linglong_box.Program.{Program, ret, throw, ◌>>=◌}
use linglong_box.Result.{unexpected_sync_message}
use linglong_box.Utils.Descriptor.{send, receive}

pub data SyncMessage : Type 0 where
  request_configure_namespace : SyncMessage
  namespace_configured : SyncMessage
  request_createruntime_hooks : SyncMessage
  create_runtime_hooks_executed : SyncMessage
  create_container_hooks_executed : SyncMessage
  start_container_hooks_executed : SyncMessage

-- The value of an enumerator, as the byte that is sent.
abbrev pub byte_of : SyncMessage → ℕ
byte_of request_configure_namespace = 0
byte_of namespace_configured = 1
byte_of request_createruntime_hooks = 2
byte_of create_runtime_hooks_executed = 3
byte_of create_container_hooks_executed = 4
byte_of start_container_hooks_executed = 5

-- `operator<<` of a message, and its `default` branch for another byte, which is printed as it is,
-- where the assertion is not compiled in.
unfoldable pub message_text : ℕ → Bytes
message_text byte =
    if byte == 0
    then codes "REQUEST_CONFIGURE_NAMESPACE"
    else if byte == 1
    then codes "NAMESPACE_CONFIGURED"
    else if byte == 2
    then codes "REQUEST_PRESTART_AND_CREATERUNTIME_HOOKS"
    else if byte == 3
    then codes "CREATE_RUNTIME_HOOKS_EXECUTED"
    else if byte == 4
    then codes "CREATE_CONTAINER_HOOKS_EXECUTED"
    else if byte == 5
    then codes "START_CONTAINER_HOOKS_EXECUTED"
    else codes "UNKNOWN " ++ byte ∷ []

-- What the exception `unexpected_sync_message` says.
unfoldable pub unexpected_text : ℕ → ℕ → Bytes
unexpected_text expected actual =
    codes "unexpected sync message: expected "
    ++ (message_text expected ++ (codes " got " ++ message_text actual))

unfoldable pub send_message : ℕ → Fd → SyncMessage → Program Unit
send_message retries socket m = send retries socket (byte_of m)

-- Reads a byte, and throws if it is not the expected message.
unfoldable pub expect_message : ℕ → Fd → SyncMessage → Program Unit
expect_message retries socket m = do
  byte ← receive retries socket
  if byte == byte_of m then ret tt else throw (unexpected_sync_message (byte_of m) byte)
