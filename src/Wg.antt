-- ===== src/Wg.antt =====
-- net/wg/wgctrl.go: the WireGuard device in the kernel.
pub mod Ctl
pub mod Tun
