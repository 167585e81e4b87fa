-- ===== src/Ethdev/TxBuffer.antt =====
-- The transmit buffers of rte/src/ethdev.rs. A buffer is its address.
use rust_dpdk.Prelude.{ℕ, ◌+◌, ◌*◌, ◌%◌, ◌^◌, ℤ, pos}
use rust_dpdk.Dpdk
use rust_dpdk.Dpdk.{
  Dpdk, History, drop_callback, count_callback, M, pure, call, call_ptr, run, ◌>>=◌, ◌>>◌,
}
use rust_dpdk.Errors.{Result, ok, err, map_ok, os_error, as_result, ptr_ok_or, rte_check}

-- `size_of::<rte_eth_dev_tx_buffer>()` is 24 in rte-sys/src/raw.rs, and a pointer has 8 bytes.
unfoldable pub rte_eth_tx_buffer_size : ℕ → ℕ
rte_eth_tx_buffer_size size = 24 + 8 * size

-- `libc::ENOMEM`.
abbrev pub enomem : ℤ
enomem = pos 12

module _ (d : Dpdk) where
  init_buffer : ℕ → Result ℕ → M (Result ℕ)
  unfolding as_result
  init_buffer size (err e) = pure (err e)
  init_buffer size (ok p) = do
    ret ← call d (Dpdk.eth_tx_buffer_init p (size % 2 ^ 16))
    pure (map_ok (λ _. p) (as_result ret))

  unfoldable pub alloc_buffer : ℕ → ℤ → M (Result ℕ)
  unfolding init_buffer ptr_ok_or rte_eth_tx_buffer_size
  alloc_buffer size socket = do
    p ← call_ptr d (Dpdk.zmalloc_socket (rte_eth_tx_buffer_size size) 0 socket)
    init_buffer size (ptr_ok_or p (os_error enomem))

  unfoldable pub free : ℕ → M (Unit {0})
  free p = run d (Dpdk.free_ptr p)

  unfoldable pub drop_err_packets : ℕ → M (Result ℕ)
  unfolding rte_check
  drop_err_packets p = rte_check (call d (Dpdk.eth_tx_buffer_set_err_callback p drop_callback)) p

  unfoldable pub count_err_packets : ℕ → M (Result ℕ)
  unfolding rte_check
  count_err_packets p = rte_check (call d (Dpdk.eth_tx_buffer_set_err_callback p count_callback)) p
