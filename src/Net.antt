-- ===== src/Net.antt =====
-- The parts of Go's `net` that the program calls: `ParseIP`, `ParseCIDR`, `IP.Equal`,
-- `IPNet.Contains` and `SplitHostPort`. An address is a list of bytes, 4 or 16 of them.
pub mod Ip
pub mod Cidr
pub mod HostPort
