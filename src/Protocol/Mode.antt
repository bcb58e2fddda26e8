-- ===== src/Protocol/Mode.antt =====
-- The packet types of `mod protocol` in src/common/net.rs, the bytes behind the magic number.
use fubuki_test.Base.{ℕ}

abbrev pub register : ℕ
register = 0x00

abbrev pub node_map : ℕ
node_map = 0x01

abbrev pub heartbeat : ℕ
heartbeat = 0x02

abbrev pub payload : ℕ
payload = 0x03

abbrev pub register_result : ℕ
register_result = 0x05

abbrev pub get_idle_virtual_addr : ℕ
get_idle_virtual_addr = 0x06

abbrev pub get_idle_virtual_addr_res : ℕ
get_idle_virtual_addr_res = 0x07

abbrev pub relay : ℕ
relay = 0x08

abbrev pub upload_peers : ℕ
upload_peers = 0x09

abbrev pub fetch_peers : ℕ
fetch_peers = 0x0a

abbrev pub fetch_peers_res : ℕ
fetch_peers_res = 0x0b
