-- ===== src/Tests/Chains.antt =====
-- The order of entries, and the chain of a packet.
use ironhide.Base.{◌≡◌, refl, [], ◌++◌}
use ironhide.Base.Result.{ok}
use ironhide.Base.Text.{codes}
use ironhide.Entry.{ConnectionEntry, entry_lt}
use ironhide.Entry.Order.{OrdersOn-entry_lt, SameButPort, SameButPort-asym}
use ironhide.StdMap.Laws.{OrdersOn}
use ironhide.Packet.{encode_iphdr}
use ironhide.Classifier.{classify_pkt}
use ironhide.Classifier.Chains.{classify_pkt_lem, IsSfcMap, empty-IsSfcMap}
use ironhide.Tests.Data.{ip, ip-IsIphdr, word, entry}

-- The entry of another client, whose address is larger and whose port is smaller.
abbrev neighbour : ConnectionEntry
neighbour = record entry { ip_src = codes "10.0.0.9"; port_src = 80 }

OrdersOn-entry_lt_example : OrdersOn entry_lt (SameButPort entry)
OrdersOn-entry_lt_example = OrdersOn-entry_lt (SameButPort entry) (SameButPort-asym entry)

classify_pkt_lem_example :
    ((classify_pkt (encode_iphdr ip ++ word) 24 []).0 ≡ ok (codes "0"))
    × IsSfcMap (classify_pkt (encode_iphdr ip ++ word) 24 []).1
classify_pkt_lem_example = classify_pkt_lem [] ip word 24 empty-IsSfcMap ip-IsIphdr refl
