-- ===== src/Device/Parse.antt =====
-- `DeviceInfo::Data::parse` of core/src/device_info.cpp on the bytes of a document.
use sc_api.Bson.Value.{Value}
use sc_api.Bson.Reader.{Reader}
