-- ===== src/Scraper/Mock.antt =====
-- The mock of a device in scraper/mock.go, which answers from maps and records what it was asked for.
use snmp_exporter.Common.{List, [], ◌∷◌, ◌++◌, Option, some, none}
use snmp_exporter.Common.Text.{Bytes, text}
use snmp_exporter.Common.Map.{lookup}
use snmp_exporter.Collector.Pdu.{Pdu, other, no_such_object}
use snmp_exporter.Collector.Scrape.{
  Request, get_request, walk_request, PacketError, no_error, Device,
}

-- `mockSNMPScraper`; an error is its text.
pub record Mock (F32 F64 : Type 0) : Type 0 where
  pub get_responses : List (Bytes × Pdu F32 F64)
  pub walk_responses : List (Bytes × List (Pdu F32 F64))
  pub connect_error : Option Bytes
  pub close_error : Option Bytes
  pub call_get : List Bytes
  pub call_walk : List Bytes

module _ {F32 F64 : Type 0} where
  -- `NewMockSNMPScraper`.
  abbrev pub new_mock :
      List (Bytes × Pdu F32 F64) → List (Bytes × List (Pdu F32 F64)) → Mock F32 F64
  new_mock get walk = record {
    get_responses = get;
    walk_responses = walk;
    connect_error = none;
    close_error = none;
    call_get = [];
    call_walk = [];
  }

  unfoldable pub get_response : Bytes → Option (Pdu F32 F64) → Pdu F32 F64
  unfolding text
  get_response oid none = record {
    name = oid;
    typ = no_such_object;
    value = other (text "%!s(<nil>)");
  }
  get_response oid (some response) = response

  -- The loop of `Get`.
  unfoldable pub mock_pdus : List Bytes → Mock F32 F64 → List (Pdu F32 F64) × Mock F32 F64
  unfolding lookup get_response
  mock_pdus [] m = ([], m)
  mock_pdus (oid ∷ oids) m =
      let rest = mock_pdus oids (record m { call_get = m.call_get ++ oid ∷ [] }) in
      (get_response oid (lookup oid m.get_responses) ∷ rest.0, rest.1)

  -- `Get`.
  unfoldable pub mock_get :
      List Bytes → Mock F32 F64 → (PacketError × List (Pdu F32 F64)) × Mock F32 F64
  unfolding mock_pdus
  mock_get oids m = ((no_error, (mock_pdus oids m).0), (mock_pdus oids m).1)

  unfoldable pub mock_walk_all : Bytes → Mock F32 F64 → List (Pdu F32 F64) × Mock F32 F64
  unfolding lookup
  mock_walk_all oid m = (
    elim (lookup oid m.walk_responses) [ some pdus ↦ pdus | none ↦ [] ],
    record m { call_walk = m.call_walk ++ oid ∷ [] },
  )

  -- The mock after a history of requests.
  unfoldable pub mock_after : List Request → Mock F32 F64 → Mock F32 F64
  unfolding mock_get mock_walk_all
  mock_after [] m = m
  mock_after (get_request oids ∷ requests) m = mock_after requests (mock_get oids m).1
  mock_after (walk_request oid ∷ requests) m = mock_after requests (mock_walk_all oid m).1

  -- The mock as the device of a scrape.
  abbrev pub mock_device : Mock F32 F64 → Device F32 F64
  mock_device m = record {
    on_get = λ history oids. some (mock_get oids (mock_after history m)).0;
    on_walk = λ history oid. some (mock_walk_all oid (mock_after history m)).0;
  }
