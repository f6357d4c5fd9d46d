-- ===== src/Client.antt =====
-- The native RS485 client: RS485/tl/native_client/jni/client.cpp, binderClient.cpp, binderClient.h.
pub mod Platform
pub mod Proxy
pub mod Lookup
pub mod Program
pub mod Simulated
pub mod Tests
