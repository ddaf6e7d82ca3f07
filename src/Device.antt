-- ===== src/Device.antt =====
-- app/services/device_code_service.py: the codes by which a device is authorized.
pub mod Codes
pub mod Requests
pub mod Blocking
pub mod Approval
mod Tests
