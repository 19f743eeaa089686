-- ===== src/Hal.antt =====
-- The hardware layer, firmware/components/pv_hal: the settings store, the Wi-Fi and HTTPS
-- clients, the provisioning portal and the LED ring's frames. ESP-IDF's functions are parameters.
pub mod NvsKv
pub mod WifiSta
pub mod SoftapPortal
pub mod HttpsClient
pub mod Xvf3800
