-- ===== src/Connector/Object/Header.antt =====
-- The object's header: what is written is read.
use awarekv.Prelude.{◌<◌, ◌^◌, ◌++◌}
use awarekv.Transport.Struct.{Bytes}
use awarekv.Connector.Object.{ObjectHeader, object_magic, le32, zeros}

-- The numbers of a header that can be packed.
pub record Fits (h : ObjectHeader) : Type 0 where
  pub version : h.object_format_version < 2 ^ 32
  pub layers : h.num_layers < 2 ^ 32
  pub tokens : h.matched_tokens < 2 ^ 32
  pub blocks : h.matched_blocks < 2 ^ 32
  pub size : h.block_size < 2 ^ 32

-- the 128 bytes of a header
abbrev pub header_bytes : ObjectHeader → Bytes
header_bytes h =
    object_magic
    ++ le32 h.object_format_version
    ++ le32 h.num_layers
    ++ le32 h.matched_tokens
    ++ le32 h.matched_blocks
    ++ le32 h.block_size
    ++ zeros 100
