-- ===== src/Examples/Kni/Ports/Released.antt =====
-- `kni_free_kni` of rte/examples/kni/main.rs behind `kni_alloc`.
use rust_dpdk.Dpdk
use rust_dpdk.Dpdk.{Dpdk, Call, halt, pure, ◌>>=◌, ◌>>◌}
