-- ===== src/Net.antt =====
-- The stream socket clients behind IStreamSocketClient (include/libvhal/istream_socket_client.h).
pub mod Kernel
pub mod Client
pub mod Unix
pub mod Vsock
pub mod Tcp
pub mod Descriptors
pub mod Paths
pub mod Older
pub mod Reliable
mod Examples
