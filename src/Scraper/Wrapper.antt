-- ===== src/Scraper/Wrapper.antt =====
-- The wrapper of a gosnmp client in scraper/gosnmp.go as the device of a scrape: the library answers,
-- and the wrapper picks the kind of walk. Log lines and times are left out, and for the device so are
-- the results beside an error, and which error it is, which the scrape does not read.
use snmp_exporter.Common.{ℕ, ◌==◌, if◌then◌else◌, List, [], ◌∷◌, Option, some, none}
use snmp_exporter.Common.Text.{Bytes}
use snmp_exporter.Collector.Pdu.{Pdu}
use snmp_exporter.Collector.Scrape.{Request, PacketError, Device}

-- `Get`, `WalkAll` and `BulkWalkAll` of gosnmp, which answer by all requests before.
pub record Library (F32 F64 : Type 0) : Type 0 where
  pub get : List Request → List Bytes → Option (PacketError × List (Pdu F32 F64))
  pub walk_all : List Request → Bytes → Option (List (Pdu F32 F64))
  pub bulk_walk_all : List Request → Bytes → Option (List (Pdu F32 F64))

module _ {F32 F64 : Type 0} (library : Library F32 F64) where
  -- SNMP version 1 has no bulk requests.
  unfoldable pub wrapper_walk_all : ℕ → List Request → Bytes → Option (List (Pdu F32 F64))
  wrapper_walk_all version history oid =
      if version == 1 then library.walk_all history oid else library.bulk_walk_all history oid

  abbrev pub device_of : ℕ → Device F32 F64
  device_of version = record { on_get = library.get; on_walk = wrapper_walk_all version }

-- The errors of gosnmp, as far as the wrapper tells them apart, and what it makes of them.
pub data GosnmpError : Type 0 where
  canceled : GosnmpError
  other_failure : Bytes → GosnmpError

pub data Action : Type 0 where
  connecting getting walking : Action

pub data WrapperError : Type 0 where
  scrape_cancelled : Action → Bytes → WrapperError
  error_with : Action → Bytes → Bytes → WrapperError

-- The end of `Connect`, `Get` and `WalkAll` on a target.
unfoldable pub wrap_error : Action → Bytes → Option GosnmpError → Option WrapperError
wrap_error action target none = none
wrap_error action target (some canceled) = some (scrape_cancelled action target)
wrap_error action target (some (other_failure e)) = some (error_with action target e)

-- `SetOptions`, on a client `G`.
unfoldable pub set_options : {G : Type 0} → List (G → G) → G → G
set_options [] g = g
set_options (fn ∷ fns) g = set_options fns (fn g)
