-- ===== src/Rpc/Methods.antt =====
-- The functions of fuse_ext2_commons/src/rpc_layer.pb-c.c for each of the messages. A failed
-- PROTOBUF_C_ASSERT is a fault.
use fuse_ext.Base.{ℕ, if◌then◌else◌, Option, List, ◌++◌, length, Outcome, ok, fault}
use fuse_ext.Rpc.Structs.{
  MessageKind, read_dir_request, read_dir_response, get_attr_request, get_attr_response,
  read_request, read_response, write_request, write_response,
}
use fuse_ext.Rpc.Messages.{
  Message, kind_eq, read_dir_request_init, read_dir_response_init, get_attr_request_init,
  get_attr_response_init, read_request_init, read_response_init, write_request_init,
  write_response_init,
}
use fuse_ext.Rpc.Library.{Library}

-- `__init` is the value that it stores; `__pack` returns the number of bytes that it writes, and
-- the bytes; `__pack_to_buffer` is given what the buffer holds.
pub record Methods : Type 0 where
  pub init : Message
  pub get_packed_size : Message → Outcome ℕ
  pub pack : Message → Outcome (ℕ × List ℕ)
  pub pack_to_buffer : Message → List ℕ → Outcome (ℕ × List ℕ)
  pub unpack : List ℕ → Option Message
  pub free_unpacked : Message → Outcome (Unit {0})

abbrev checked {ℓ} : {A : Type ℓ} → MessageKind → Message → A → Outcome A
checked k m a = if kind_eq m.descriptor k then ok a else fault

module _ (lib : Library) where
  abbrev methods_of : MessageKind → Message → Methods
  methods_of k init = record {
    init = init;
    get_packed_size = λ m. checked k m (lib.get_packed_size m);
    pack = λ m. checked k m (length (lib.pack m), lib.pack m);
    pack_to_buffer = λ m buffer. checked k m (length (lib.pack m), buffer ++ lib.pack m);
    unpack = lib.unpack k;
    free_unpacked = λ m. checked k m tt;
  }

  abbrev pub read_dir_request_methods : Methods
  read_dir_request_methods = methods_of read_dir_request read_dir_request_init

  abbrev pub read_dir_response_methods : Methods
  read_dir_response_methods = methods_of read_dir_response read_dir_response_init

  abbrev pub get_attr_request_methods : Methods
  get_attr_request_methods = methods_of get_attr_request get_attr_request_init

  abbrev pub get_attr_response_methods : Methods
  get_attr_response_methods = methods_of get_attr_response get_attr_response_init

  abbrev pub read_request_methods : Methods
  read_request_methods = methods_of read_request read_request_init

  abbrev pub read_response_methods : Methods
  read_response_methods = methods_of read_response read_response_init

  abbrev pub write_request_methods : Methods
  write_request_methods = methods_of write_request write_request_init

  abbrev pub write_response_methods : Methods
  write_response_methods = methods_of write_response write_response_init

  abbrev pub methods : MessageKind → Methods
  methods read_dir_request = read_dir_request_methods
  methods read_dir_response = read_dir_response_methods
  methods get_attr_request = get_attr_request_methods
  methods get_attr_response = get_attr_response_methods
  methods read_request = read_request_methods
  methods read_response = read_response_methods
  methods write_request = write_request_methods
  methods write_response = write_response_methods
