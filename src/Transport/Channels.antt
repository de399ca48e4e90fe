-- ===== src/Transport/Channels.antt =====
-- src/dakv/transport/critical_channel.py and src/dakv/transport/refine_channel.py, over the results
-- of the client's calls: a critical fetch that fails raises, a refinement that fails is dropped.
use awarekv.Prelude.{
  Bool, true, false, not, if◌then◌else◌, Option, none, some, Result, ok, raise, runtime_error,
}
use awarekv.Transport.Struct.{Bytes}

-- `CriticalChannel.fetch`
unfoldable pub critical_fetch : Option Bytes → Result Bytes
critical_fetch none = raise runtime_error
critical_fetch (some b) = ok b

-- `RefineChannel.fetch`; the client's `get_refinement` catches its exceptions itself
unfoldable pub refine_fetch : Option Bytes → Option Bytes
refine_fetch none = none
refine_fetch (some b) = some b

-- the two methods `store`, over the answer of the client, whose methods catch their exceptions
unfoldable pub critical_store : Bool → Bool
critical_store success = if not success then false else true

unfoldable pub refine_store : Bool → Bool
refine_store success = if not success then false else true
